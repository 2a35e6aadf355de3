-- ===== src/Api.antt =====
-- src/tvastr/api: what a route makes of a persisted run.
pub mod Payloads
pub mod Verify
pub mod Rows
pub mod Roundtrip
