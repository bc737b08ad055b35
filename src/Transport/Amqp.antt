-- ===== src/Transport/Amqp.antt =====
-- atasks/transport/backends/amqp.py, `AMQPTransport`.
pub mod Names
pub mod Requests
pub mod Handlers
pub mod Connection
pub mod System
