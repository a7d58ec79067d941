-- ===== src/Handlers.antt =====
-- Packages internal/handlers/common and internal/handlers/crud: commands as SQL.
pub mod SqlValue
pub mod SqlKey
pub mod Like
pub mod Where
pub mod Clauses
pub mod Equalities
pub mod UpdateValue
pub mod Update
pub mod Updates
pub mod Assignments
pub mod Store
pub mod MsgDelete
pub mod MsgInsert
pub mod MsgUpdate
pub mod Deletes
pub mod Inserted
pub mod Updated
pub mod Projection
pub mod Find
