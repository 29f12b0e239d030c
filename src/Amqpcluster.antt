-- ===== src/Amqpcluster.antt =====
-- Package amqpcluster: several RabbitMQ nodes behind one adapter.
pub mod Node
pub mod Connect
pub mod Publish
pub mod Config
mod Examples
