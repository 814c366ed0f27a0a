-- ===== src/Reactors.antt =====
-- Reactors: mmids-core/src/reactors.
pub mod Executors
pub mod Reactor
pub mod Manager
