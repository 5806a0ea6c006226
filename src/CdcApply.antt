-- ===== src/CdcApply.antt =====
-- apply/cdc.py: normalized change events applied to a target that keeps one row per key.
pub mod Rows
pub mod Write
pub mod Apply
pub mod Tally
pub mod Counts
