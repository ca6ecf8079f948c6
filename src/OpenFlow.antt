-- ===== src/OpenFlow.antt =====
-- openflow_protocol.go: the OpenFlow 1.3 and 1.5 messages that the SDK writes and reads.
pub mod Bytes
pub mod Mac
pub mod Message
pub mod Oxm
pub mod Match
pub mod FlowMod
pub mod Hello
pub mod Session
pub mod Intent
