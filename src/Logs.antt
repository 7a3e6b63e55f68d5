-- ===== src/Logs.antt =====
-- Logging: logging_setup.py.
pub mod Recent
pub mod Examples
