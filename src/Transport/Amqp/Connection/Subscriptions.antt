-- ===== src/Transport/Amqp/Connection/Subscriptions.antt =====
-- `AMQPTransport` as the transport that a router drives.
use atasks.Prelude.{
  ℕ, String, ◌≡◌, refl, true, false, Option, some, eq_iff, arith, ◌↔◌, is_some, if◌then◌else◌, inl,
  inr,
}
use atasks.Prelude.Dict
use atasks.Prelude.Dict.{Dict, lookup-insert, lookup-erase}
use atasks.Hop.{Kind}
use atasks.Errors.{returned, raised, Outcome-cases}
use atasks.Transport.{kind_eq, same}
use atasks.Transport.Amqp.Connection.{
  AioPika, Amqp, put_at, register, unregister, consume_from, cancel_consumer,
}

-- The tables and the attributes are as they were.
abbrev Unchanged : {B : Type 0} → Amqp B → Amqp B → Type 0
Unchanged t u =
    (u.queues ≡ t.queues)
    × (u.consumers ≡ t.consumers)
    × (u.attributes ≡ t.attributes)
    × (u.options ≡ t.options)

kind_eq_iff : (k k' : Kind) → (kind_eq k k' ≡ true) ↔ (k ≡ k')
kind_eq_iff k k' = ground arith

module _ {C B : Type 0} (aio_pika : AioPika C B) where
  consume_from-Unchanged :
      (k : Kind) (n : String) (c : C) (t : Amqp B) → Unchanged t (consume_from aio_pika k n c t).1
  unfolding consume_from
  consume_from-Unchanged k n c t = ground arith

  cancel_consumer-Unchanged :
      (q tag : Option ℕ) (t : Amqp B) → Unchanged t (cancel_consumer aio_pika q tag t).1
  unfolding cancel_consumer
  cancel_consumer-Unchanged (some q) (some tag) t = ground arith
  cancel_consumer-Unchanged q tag t = ground arith

  -- Whatever `aio_pika` raises in a registration, the lock is released and no table has changed; the
  -- registration that returns adds the name, under its kind alone.
  pub register-tables :
      (k : Kind) (n : String) (c : C) (t : Amqp B) (k' : Kind) (n' : String)
      → ((register aio_pika k n c t).1.locked ≡ false)
        × ((register aio_pika k n c t).1.attributes ≡ t.attributes)
        × (is_some (Dict.lookup n' ((register aio_pika k n c t).1.consumers k'))
            ≡ (elim (register aio_pika k n c t).0 [
              | returned _ ↦
                  if same k n k' n' then true else is_some (Dict.lookup n' (t.consumers k'))
              | raised _ ↦ is_some (Dict.lookup n' (t.consumers k'))
            ]))
  unfolding register
  register-tables k n c t k' n' =
      let m = consume_from aio_pika k n c (record t { locked = true }) in
      let u = consume_from-Unchanged k n c (record t { locked = true }) in
      elim (Outcome-cases m.0) [
        | inl (v, e) ↦ rw e (
          refl,
          u.2,
          ground
              (arith, u.1, lookup-insert n' n v.1 (m.1.consumers k), eq_iff n n', kind_eq_iff k k'),
        )
        | inr (x, e) ↦ rw e (refl, u.2, ground (arith, u.1))
      ]

  pub unregister_lem :
      (k : Kind) (n : String) (t : Amqp B) (k' : Kind) (n' : String)
      → ((unregister aio_pika k n t).1.locked ≡ false)
        × ((unregister aio_pika k n t).1.attributes ≡ t.attributes)
        × (is_some (Dict.lookup n' ((unregister aio_pika k n t).1.consumers k'))
            ≡ (if same k n k' n' then false else is_some (Dict.lookup n' (t.consumers k'))))
  unfolding unregister
  unregister_lem k n t k' n' =
      let u =
        cancel_consumer-Unchanged (Dict.lookup n (t.queues k)) (Dict.lookup n (t.consumers k))
          (record t {
            locked = true;
            queues = put_at t.queues k (Dict.erase n (t.queues k));
            consumers = put_at t.consumers k (Dict.erase n (t.consumers k));
          }) in
      (
        refl,
        u.2,
        rw (u.1) (ground (arith, lookup-erase n' n (t.consumers k), eq_iff n n', kind_eq_iff k k')),
      )
