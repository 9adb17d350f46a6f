-- ===== src/Examples.antt =====
-- Concrete runs of the program, with a table in memory and codecs, at which the theorems are applied.
pub mod Analyses
pub mod Memory
pub mod Accounts
pub mod Users
pub mod Feeds
pub mod Codecs
mod Downloads
mod Catalogue
mod Extractions
mod Streams
mod Atom
mod Jobs
mod Files
