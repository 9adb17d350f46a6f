-- ===== src/Download.antt =====
-- The PDF-download workflow (internal/application/pdfdownload).
pub mod Types
pub mod Stream
pub mod Job
pub mod Sanitize
pub mod Description
pub mod Worker
pub mod FanOut
pub mod Life
pub mod Delivery
pub mod Clients
pub mod Progress
pub mod Sections
pub mod Reachable
pub mod Laws
pub mod Dto
pub mod Watching
pub mod Registry
mod Tests
