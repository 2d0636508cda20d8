-- ===== src/Hazards.antt =====
-- app/hazards: the table of hazard events, its repository, and the sync of the sources into it.
pub mod Model
pub mod Upsert
pub mod Close
pub mod Attribution
pub mod Queries
pub mod Pages
pub mod Severity
mod Tests
