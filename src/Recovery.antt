-- ===== src/Recovery.antt =====
-- recovery/runtime.py with the contracts that it reads and writes.
pub mod Contract
pub mod Runtime
pub mod Retry
pub mod Attempt
pub mod Story
pub mod Settle
pub mod Attempts
pub mod Results
