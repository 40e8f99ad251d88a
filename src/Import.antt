-- ===== src/Import.antt =====
-- The split of the weekly plan of the academic office into dated course sessions:
-- backend/internal/importer/jwc. The rows of the sheet are given as they were read.
pub mod Cells
pub mod Weeks
pub mod Dates
pub mod Classes
pub mod Numerals
pub mod Print
pub mod Named
pub mod Names
pub mod Groups
pub mod Parallel
pub mod Slots
pub mod Regimes
pub mod InForce
pub mod Records
pub mod Split
pub mod Sessions
mod Examples
