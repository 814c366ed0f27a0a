-- ===== src/RtmpServer.antt =====
-- The RTMP server endpoint, without the protocol itself: mmids-rtmp/src/rtmp_server.
pub mod Types
pub mod State
pub mod Registration
pub mod Removal
pub mod Publishing
pub mod Watching
pub mod Endpoint
pub mod Handler
pub mod Views
pub mod Ports
pub mod Reach
pub mod Registrants
pub mod Admission
pub mod Approval
pub mod Stale
pub mod LateWatcher
pub mod Linked
