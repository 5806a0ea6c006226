-- ===== src/Cdc.antt =====
-- capture/cdc.py and StateCommitGate of contracts/runtime.py: bounded windows of change events.
pub mod Contract
pub mod Normalize
pub mod Checkpoint
pub mod Loop
pub mod Window
pub mod Rerun
