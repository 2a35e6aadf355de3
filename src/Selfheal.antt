-- ===== src/Selfheal.antt =====
-- src/tvastr/selfheal: the loop that finds the program's own failures and repairs them.
pub mod Scan
pub mod Guard
pub mod Report
pub mod Ranking
pub mod Merging
pub mod Scheduler
pub mod Remediate
