-- ===== src/Agent.antt =====
-- src/tvastr/agent: the tools of the remediation agent.
pub mod Prompts
pub mod Services
pub mod Retrieval
pub mod Investigate
pub mod Schema
pub mod Edits
pub mod EditSafety
pub mod Nodes
pub mod Graph
pub mod FixSafety
pub mod Confidence
pub mod Uses
pub mod Bounds
pub mod Ordinary
pub mod Gate
pub mod Fixes
