-- ===== src/Pdf.antt =====
-- The pdf domain package (internal/domain/pdf): the key of an artifact, the errors and categories.
pub mod Key
pub mod Path
pub mod Store
pub mod Confined
pub mod Publishing
