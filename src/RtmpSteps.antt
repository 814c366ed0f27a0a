-- ===== src/RtmpSteps.antt =====
-- The workflow steps around RTMP: mmids-rtmp/src/workflow_steps.
pub mod Conversion
pub mod Parameters
pub mod Receive
pub mod Watch
pub mod Reader
pub mod RoundTrip
pub mod Startup
pub mod Guarded
