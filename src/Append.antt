-- ===== src/Append.antt =====
-- apply/append.py and contracts/append.py: rows that are appended once for each identity.
pub mod Contract
pub mod Apply
pub mod Counts
pub mod Order
pub mod Decorated
pub mod Handled
pub mod Clean
pub mod Rerun
