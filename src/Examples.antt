-- ===== src/Examples.antt =====
-- Tests and examples: the theorems at concrete inputs.
mod Texts
mod Operations
mod Leases
mod Cutovers
mod Rows
mod Snapshots
mod Appends
mod Watermarks
mod Windows
mod Plans
mod Retries
mod Impacts
mod Dispatches
mod Changes
mod Configs
