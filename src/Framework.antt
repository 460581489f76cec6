-- ===== src/Framework.antt =====
-- framework/: the escaping of SQL identifiers and the crawlers' inventory snapshot.
pub mod Escape
pub mod Crawler
