-- ===== src/Tests.antt =====
-- Runs of the modelled code on small documents and messages, and its theorems at them.
pub mod Data
mod Commands
mod Documents
mod Encoding
mod Finds
mod Inserts
mod Messages
mod Filters
mod Reading
