-- ===== src/Tests.antt =====
-- Tests of the definitions, and the theorems at concrete inputs.
mod Samples
mod Privacy
mod Patterns
mod Runs
mod Healing
mod Verifying
mod Editing
mod Outside
mod Agents
mod Scenario
mod Reading
