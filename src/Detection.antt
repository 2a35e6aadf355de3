-- ===== src/Detection.antt =====
-- src/tvastr/detection: from events to the patterns that are worth remediating.
pub mod Clustering
pub mod Detector
pub mod Threshold
pub mod Grouping
pub mod Privacy
pub mod Dedup
