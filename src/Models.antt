-- ===== src/Models.antt =====
-- src/finality_ref/models.py: the immutable records that pass between the parts.
mod Acts
mod Tokens
unfoldable pub use Acts.*
unfoldable pub use Tokens.*
