-- ===== src/Dispatcher.antt =====
-- orchestration/dispatcher.py.
pub mod Contract
pub mod Loop
pub mod Dispatch
pub mod Rule
pub mod Results
pub mod Ends
pub mod Shapes
