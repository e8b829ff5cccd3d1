-- ===== src/Request.antt =====
-- repo/request: the HTTP requests of the broker.
pub mod Http
pub mod Retry
