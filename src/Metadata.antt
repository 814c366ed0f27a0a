-- ===== src/Metadata.antt =====
-- Metadata of media payloads: mmids-core/src/workflows/metadata/.
pub mod Buffer
pub mod Types
pub mod Keys
pub mod Klv
pub mod Entry
pub mod Collection
