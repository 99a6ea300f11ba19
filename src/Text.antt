-- ===== src/Text.antt =====
-- Text as bytes: what the program uses of the standard library, and its own small codecs.
pub mod Lacks
pub mod Split
pub mod Decimal
pub mod Words
