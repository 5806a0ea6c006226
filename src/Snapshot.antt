-- ===== src/Snapshot.antt =====
-- apply/snapshot_diff.py, the plan of inserts, updates and deletes from a complete snapshot, and the
-- snapshot evidence of capture/full.py.
pub mod Contract
pub mod Plan
pub mod Index
pub mod Keys
pub mod Made
pub mod Results
