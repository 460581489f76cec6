-- ===== src/Framework/Escape.antt =====
-- framework/utils.py: `escape_sql_identifier`.
mod Parts
mod Laws
unfoldable pub use Parts.*
pub use Laws.*
