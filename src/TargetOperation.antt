-- ===== src/TargetOperation.antt =====
-- contracts/target_operation.py and control_plane/target_operation_journal.py: the durable record
-- of each semantic target mutation, its events, and the claims and transitions on them.
pub mod Contract
pub mod Store
pub mod Journal
pub mod Transitions
pub mod Steps
pub mod Interleaving
pub mod Calls
pub mod Trace
pub mod Safety
pub mod Claims
pub mod Races
pub mod Progress
