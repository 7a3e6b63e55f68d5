-- ===== src/Service.antt =====
-- The service that ties the parts together, service.py, and its configuration file.
pub mod Sessions
pub mod Config
pub mod Examples
