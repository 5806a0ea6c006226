-- ===== src/Cutover.antt =====
-- contracts/target_version.py and recovery/target_cutover.py: blue/green promotion of a physical
-- target version behind a stable logical object.
pub mod Contract
pub mod Execute
pub mod Memory
pub mod Promotion
