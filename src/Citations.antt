-- ===== src/Citations.antt =====
-- src/lib/evidence/citations.ts: which quotes count as evidence. A text is the list of its code units.
pub mod Repair
pub mod Splits
pub mod Pages
pub mod Verified
pub mod Expected
