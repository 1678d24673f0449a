-- ===== src/Runs.antt =====
-- src/lib/runs: the record of a run, its state machine and its store.
pub mod Types
pub mod Transition
pub mod Store
