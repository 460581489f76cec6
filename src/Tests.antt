-- ===== src/Tests.antt =====
-- Small inputs, and what the theorems say of them.
pub mod FrameworkSamples
pub mod TableSamples
pub mod MappingSamples
pub mod ViewSamples
pub mod GroupSamples
pub mod TaskSamples
pub mod GrantSamples
pub mod MigrateSamples
pub mod LocationSamples
pub mod SupportSamples
pub mod MoveSamples
