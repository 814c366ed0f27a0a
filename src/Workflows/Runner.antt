-- ===== src/Workflows/Runner.antt =====
-- The actor of one workflow: mmids-core/src/workflows/runner/mod.rs. This file has its state; the
-- children have its methods, from the innermost to the loop of `run`, and then their properties.
pub mod State
pub mod Caches
pub mod Execute
pub mod Swap
pub mod Apply
pub mod Loop
pub mod Frame
pub mod Invariant
pub mod History
pub mod Updates
pub mod Replay
pub mod Heard
pub mod Flow
