-- ===== src/Mq.antt =====
-- The package repo/mq/kafka.
pub mod Client
pub mod Config
pub mod Clients
pub mod Producer
pub mod Consumer
pub mod Consuming
pub mod Delivery
