-- ===== src/Workflows.antt =====
-- Workflows, their steps and their manager: mmids-core/src/workflows/.
pub mod Media
pub mod Definitions
pub mod Requests
pub mod Steps
pub mod Runner
pub mod Manager
pub mod Forwarder
