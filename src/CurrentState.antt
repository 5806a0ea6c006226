-- ===== src/CurrentState.antt =====
-- apply/current_state.py, the primitive behind apply/scd1.py and apply/upsert.py.
pub mod Apply
pub mod Spec
pub mod Refinement
pub mod Rerun
pub mod Wrappers
