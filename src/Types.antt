-- ===== src/Types.antt =====
-- Package internal/types: the values that the handlers work on, with their documents and arrays.
pub mod Value
pub mod Fields
pub mod Validate
pub mod Document
pub mod Arrays
pub mod Path
pub mod Compare
