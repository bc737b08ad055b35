-- ===== src/Transport/Amqp/Handlers/Laws.antt =====
-- What the callbacks of the queues do with a message.
