-- ===== src/Analysis.antt =====
-- src/tvastr/analysis: the pull request that addresses an issue, and the grading of a fix by it.
pub mod Discovery
pub mod Choice
pub mod Comparison
