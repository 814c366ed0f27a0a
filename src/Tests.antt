-- ===== src/Tests.antt =====
-- The theorems at concrete inputs.
mod Metadata
mod Hub
mod Workflow
mod Reactor
mod Forwarder
mod RtmpServer
mod RtmpSteps
mod Generators
mod Registrants
mod Handler
