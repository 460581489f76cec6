-- ===== src/Text.antt =====
-- The operations of Python's `str` that the program calls, on the native texts: `lower` and `upper`
-- (the letters A-Z and a-z; other characters stay), `split`, `strip`, `in`, `endswith`, `join`.
mod Case
mod Pieces
mod Split
mod SplitAll
mod Chars
mod Find
unfoldable pub use Case.*
unfoldable pub use Pieces.*
unfoldable pub use Split.*
unfoldable pub use SplitAll.*
pub use Chars.*
unfoldable pub use Find.*
pub use text.Mathlib.Text.{starts_with, find?}
