-- ===== src/Transport/Amqp/Connection/Driven.antt =====
-- A connected `AMQPTransport` over a broker that does what it is asked, as the transport that a
-- router drives.
use atasks.Prelude.{
  ℕ, String, ◌≡◌, Bool, true, false, ◌&&◌, Option, some, arith, ◌∙◌, is_some, Option-cases, inl,
  inr,
}
use atasks.Prelude.Dict
use atasks.Prelude.Dict.{Dict}
use atasks.Hop.{Kind, rpc, queue, broadcast}
use atasks.Errors.{Outcome, returned, raised, Outcome-cases}
use atasks.Transport.{Methods, IsSubscribing}
use atasks.Transport.Amqp.Names.{routing_key, queue_name, is_durable}
use atasks.Transport.Amqp.Connection.{
  AioPika, Amqp, exchange_attribute, hasattr, register, unregister, consume_from, cancel_consumer,
}
use atasks.Transport.Amqp.Connection.Subscriptions.{register-tables, unregister_lem}

abbrev pub is_returned : {A : Type 0} → Outcome A → Bool
is_returned (returned _) = true
is_returned (raised _) = false

-- No method that a subscription awaits raises: the connection holds.
pub record IsReliable {C B : Type 0} (aio_pika : AioPika C B) : Type 0 where
  pub declares :
      (channel : ℕ) (name : String) (durable : Bool) (b : B)
      → is_returned (aio_pika.declare_queue channel name durable b).0 ≡ true
  pub binds :
      (q exchange : ℕ) (key : String) (b : B)
      → is_returned (aio_pika.bind q exchange key b).0 ≡ true
  pub consumes : (q : ℕ) (c : C) (b : B) → is_returned (aio_pika.consume q c b).0 ≡ true
  pub cancels : (q tag : ℕ) (b : B) → is_returned (aio_pika.cancel q tag b).0 ≡ true

-- The attributes that a registration reads are set, as `connect` leaves them.
abbrev pub is_set_up : {B : Type 0} → Amqp B → Bool
is_set_up t =
    hasattr "_channel" t
    && hasattr "_request_exchange" t
    && hasattr "_event_exchange" t
    && hasattr "_broadcast_exchange" t

pub record Connected (B : Type 0) : Type 0 where
  pub transport : Amqp B
  pub ready : is_set_up transport ≡ true

module _ {C B : Type 0} (aio_pika : AioPika C B) where
  pub is_set_up-keep :
      (t u : Amqp B) → u.attributes ≡ t.attributes → is_set_up t ≡ true → is_set_up u ≡ true
  is_set_up-keep t u e h = rw e h

  abbrev after :
      (r : Connected B) (u : Amqp B) → u.attributes ≡ r.transport.attributes → Connected B
  after r u e = record { transport = u; ready = is_set_up-keep r.transport u e r.ready }

  -- The six methods, on a transport that `connect` has set up.
  abbrev pub connected_methods : Methods C (Connected B)
  connected_methods = record {
    register = λ k n c r. (
      (register aio_pika k n c r.transport).0,
      after r (register aio_pika k n c r.transport).1
          (register-tables aio_pika k n c r.transport k n).1,
    );
    unregister = λ k n r. (
      (unregister aio_pika k n r.transport).0,
      after r (unregister aio_pika k n r.transport).1
          (unregister_lem aio_pika k n r.transport k n).1,
    );
  }

  -- A consumer is noted for the name.
  abbrev pub is_consumed : Connected B → Kind → String → Bool
  is_consumed r k n = is_some (Dict.lookup n (r.transport.consumers k))

  module _ (reliable : IsReliable aio_pika) where
    is_set_up-exchange :
        (k : Kind) (t : Amqp B) → is_set_up t ≡ true → hasattr (exchange_attribute k) t ≡ true
    is_set_up-exchange rpc t h = ground (arith, h)
    is_set_up-exchange queue t h = ground (arith, h)
    is_set_up-exchange broadcast t h = ground (arith, h)

    consume_from-returns :
        (k : Kind) (n : String) (c : C) (t : Amqp B) (channel exchange : ℕ)
        → Dict.lookup "_channel" t.attributes ≡ some channel
        → Dict.lookup (exchange_attribute k) t.attributes ≡ some exchange
        → is_returned (consume_from aio_pika k n c t).0 ≡ true
    unfolding consume_from
    consume_from-returns k n c t channel exchange e e' =
        let name = queue_name k t.options.queue t.options.prefix n in
        let key = routing_key k t.options.prefix n in
        let d = aio_pika.declare_queue channel name (is_durable k) t.broker in
        elim (Outcome-cases d.0) [
          | inl (q, eq) ↦
              let l = aio_pika.bind q exchange key d.1 in
              ground
                (arith, e, e', eq, reliable.binds q exchange key d.1, reliable.consumes q c l.1)
          | inr (x, eq) ↦
              absurd (ground (arith, eq, reliable.declares channel name (is_durable k) t.broker))
        ]

    register-returns :
        (k : Kind) (n : String) (c : C) (t : Amqp B)
        → is_set_up t ≡ true
        → (register aio_pika k n c t).0 ≡ returned tt
    unfolding register
    register-returns k n c t h = elim (Option-cases (Dict.lookup "_channel" t.attributes)) [
      | inl e ↦ absurd (ground (arith, e, h))
      | inr (channel, e) ↦ elim (Option-cases (Dict.lookup (exchange_attribute k) t.attributes)) [
        | inl e' ↦ absurd (ground (arith, e', is_set_up-exchange k t h))
        | inr (exchange, e') ↦
            ground
              (arith, consume_from-returns k n c (record t { locked = true }) channel exchange e e')
      ]
    ]

    cancel_consumer-returns :
        (q tag : Option ℕ) (t : Amqp B) → (cancel_consumer aio_pika q tag t).0 ≡ returned tt
    unfolding cancel_consumer
    cancel_consumer-returns (some q) (some tag) t = ground (arith, reliable.cancels q tag t.broker)
    cancel_consumer-returns q tag t = ground arith

    unregister-returns :
        (k : Kind) (n : String) (t : Amqp B) → (unregister aio_pika k n t).0 ≡ returned tt
    unfolding unregister cancel_consumer
    unregister-returns k n t =
        cancel_consumer-returns (Dict.lookup n (t.queues k)) (Dict.lookup n (t.consumers k)) _

    -- Over a broker that raises nothing, a connected transport keeps the promise that a router relies
    -- on: each of the six methods returns, and changes whether a consumer is noted for its kind and
    -- name, and for no other.
    pub connected_methods-IsSubscribing : IsSubscribing connected_methods is_consumed
    connected_methods-IsSubscribing = record {
      register_returns = λ k n c r. register-returns k n c r.transport r.ready;
      subscribed-register = λ k n c r k' n'.
          (register-tables aio_pika k n c r.transport k' n').2
          ∙ rw (register-returns k n c r.transport r.ready);
      unregister_returns = λ k n r. unregister-returns k n r.transport;
      subscribed-unregister = λ k n r k' n'. (unregister_lem aio_pika k n r.transport k' n').2;
    }
