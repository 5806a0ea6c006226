-- ===== src/Rebuild.antt =====
-- recovery/rebuild_impact.py with contracts/rebuild_impact.py.
pub mod Graph
pub mod Impact
pub mod Build
pub mod Reach
pub mod Edges
pub mod Termination
pub mod Waves
pub mod Planning
pub mod Validation
pub mod Results
pub mod Progress
