-- ===== src/Planner.antt =====
-- orchestration/planner.py: the plan of a dispatch, from the deployed configurations, the policy of an
-- execution group and the runtime overrides; the dependency graph of the selected datasets, what is
-- ready and what is blocked, and the status of the whole pipeline.
pub mod Config
pub mod Graph
pub mod Schedule
pub mod Topology
pub mod Depth
pub mod Waves
pub mod Grouping
pub mod Overrides
pub mod Winners
pub mod Governing
pub mod Policy
pub mod Build
pub mod Choosing
pub mod Limits
pub mod Selection
pub mod Total
