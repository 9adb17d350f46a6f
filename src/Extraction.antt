-- ===== src/Extraction.antt =====
-- Document extraction (internal/domain/extraction, internal/application/extraction,
-- internal/infrastructure/persistence/extraction).
pub mod Types
pub mod Row
pub mod Trip
pub mod Repository
pub mod Lines
pub mod Markdown
pub mod Normalize
pub mod FilePath
pub mod UseCase
pub mod Worker
pub mod Service
mod Tests
