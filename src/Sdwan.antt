-- ===== src/Sdwan.antt =====
-- sdwan.go and sdwan_agent.go: declarative SD-WAN networks, and the control plane of their agents.
pub mod Types
pub mod Validate
pub mod Normalize
pub mod Plan
pub mod Store
pub mod Equal
pub mod Builder
pub mod Agent
pub mod Control
