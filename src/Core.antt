-- ===== src/Core.antt =====
-- core/: what the agent and the server share.
pub mod Cron
