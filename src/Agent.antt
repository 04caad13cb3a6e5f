-- ===== src/Agent.antt =====
-- agent/: what runs beside the instruments.
pub mod Csv
pub mod RetryDelay
