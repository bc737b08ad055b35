-- ===== src/Transport/Amqp/Connection/Unsubscribing.antt =====
-- The consumer that an `AMQPTransport` starts for a name, until the registration is undone.
use atasks.Prelude.{ℕ, String, ◌≡◌, refl, false, eq_iff, some, none, arith, if◌then◌else◌}
use atasks.Prelude.Dict
use atasks.Prelude.Dict.{Dict, lookup-insert, lookup-erase}
use atasks.Hop.{Kind}
use atasks.Errors.{returned}
use atasks.Transport.Amqp.Names.{routing_key, queue_name, is_durable}
use atasks.Transport.Amqp.Connection.{
  AioPika, Amqp, exchange_attribute, is_connected, put_at, register, unregister, consume_from,
  cancel_consumer,
}

module _ (k : Kind) (n : String) (v : ℕ) (tables : Kind → Dict ℕ) where
  lookup-put_at : Dict.lookup n (put_at tables k (Dict.insert n v (tables k)) k) ≡ some v
  lookup-put_at = ground (arith, lookup-insert n n v (tables k), eq_iff n n)

  lookup-erase_at : Dict.lookup n (put_at tables k (Dict.erase n (tables k)) k) ≡ none
  lookup-erase_at = ground (arith, lookup-erase n n (tables k), eq_iff n n)

module _ {C B : Type 0} (aio_pika : AioPika C B) (k : Kind) (n : String) (c : C) (t : Amqp B)
    (connection channel exchange q tag : ℕ) (b₁ b₂ b₃ : B) where
  -- The transport after the registration, with the queue and the consumer noted.
  abbrev noted : Amqp B
  noted = record t {
    locked = false;
    queues = put_at t.queues k (Dict.insert n q (t.queues k));
    consumers = put_at t.consumers k (Dict.insert n tag (t.consumers k));
    broker = b₃;
  }

  register-noted :
      Dict.lookup "_channel" t.attributes ≡ some channel
      → Dict.lookup (exchange_attribute k) t.attributes ≡ some exchange
      → aio_pika.declare_queue channel
          (queue_name k t.options.queue t.options.prefix n)
          (is_durable k)
          t.broker
        ≡ (returned q, b₁)
      → aio_pika.bind q exchange (routing_key k t.options.prefix n) b₁ ≡ (returned tt, b₂)
      → aio_pika.consume q c b₂ ≡ (returned tag, b₃)
      → register aio_pika k n c t ≡ (returned tt, noted)
  unfolding register consume_from
  register-noted ch ex d b s = ground arith

  -- A registration declares the queue of the name, binds it by the routing key of the name and
  -- consumes from it; when it is undone, the broker is asked to cancel this very consumer of this
  -- very queue, and to do nothing else, and nothing at all over a closed connection; what it answers
  -- is the result, and the name is noted no more. The connection is there, and the broker does what
  -- the registration asks.
  pub unregister-register :
      Dict.lookup "_connection" t.attributes ≡ some connection
      → Dict.lookup "_channel" t.attributes ≡ some channel
      → Dict.lookup (exchange_attribute k) t.attributes ≡ some exchange
      → aio_pika.declare_queue channel
          (queue_name k t.options.queue t.options.prefix n)
          (is_durable k)
          t.broker
        ≡ (returned q, b₁)
      → aio_pika.bind q exchange (routing_key k t.options.prefix n) b₁ ≡ (returned tt, b₂)
      → aio_pika.consume q c b₂ ≡ (returned tag, b₃)
      → let t' = (register aio_pika k n c t).1 in
        let r = unregister aio_pika k n t' in
        ((register aio_pika k n c t).0 ≡ returned tt)
        × ((r.0, r.1.broker) ≡ (
            if aio_pika.is_closed connection b₃
            then (returned tt, b₃)
            else aio_pika.cancel q tag b₃))
        × (Dict.lookup n (r.1.queues k) ≡ none)
        × (Dict.lookup n (r.1.consumers k) ≡ none)
        × (r.1.locked ≡ false)
  unfolding unregister cancel_consumer is_connected
  unregister-register co ch ex d b s =
      let started : Dict.lookup n (noted.queues k) ≡ some q = lookup-put_at k n q t.queues in
      let tagged : Dict.lookup n (noted.consumers k) ≡ some tag =
        lookup-put_at k n tag t.consumers in
      rw (register-noted ch ex d b s, started, tagged)
        (
          refl,
          ground (arith, co),
          ground (arith, co, lookup-erase_at k n q noted.queues),
          ground (arith, co, lookup-erase_at k n tag noted.consumers),
          refl,
        )
