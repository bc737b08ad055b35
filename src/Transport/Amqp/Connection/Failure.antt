-- ===== src/Transport/Amqp/Connection/Failure.antt =====
-- `connect` of an `AMQPTransport` that raises after the connection was made.
use atasks.Prelude.{ℕ, String, ◌≡◌, refl, true, false, none, some, arith, ◌∙◌, inl, inr}
use atasks.Prelude.Dict
use atasks.Prelude.Dict.{Dict, lookup-insert, lookup-erase}
use atasks.Errors.{Exec, returned, raised, PyException, Outcome-cases, ◌>>◌}
use atasks.Transport.Amqp.Connection.{
  AioPika, Amqp, delete, Options, prepare, set_up, connect, tear_down, disconnect,
}
use atasks.Transport.Amqp.Connection.Driven.{is_returned}
use atasks.Transport.Amqp.Connection.Kept.{Keeps-prepare}

module _ {C B : Type 0} (aio_pika : AioPika C B) where
  -- What a failed set-up leaves: the connection, and no consumer of the responses.
  set_up-raised :
      (options : Options) (connection : ℕ) (u : Amqp B) (e : PyException)
      → (set_up aio_pika options connection u).0 ≡ raised e
      → (Dict.lookup "_connection" (set_up aio_pika options connection u).1.attributes
          ≡ Dict.lookup "_connection" u.attributes)
        × (Dict.lookup "_response_consumer" (set_up aio_pika options connection u).1.attributes
            ≡ Dict.lookup "_response_consumer" u.attributes)
  unfolding set_up
  set_up-raised options connection u e h =
      let k = (Keeps-prepare "_connection" aio_pika options connection refl).at u in
      let k' = (Keeps-prepare "_response_consumer" aio_pika options connection refl).at u in
      elim (Outcome-cases (prepare aio_pika options connection u).0) [
        | inl (v, r) ↦ absurd (ground (arith, r, h))
        | inr (p, r) ↦ rw r (k, k')
      ]

-- An action that raises where the consumer of the responses is missing.
record Needs {B A : Type 0} (m : Exec (Amqp B) A) : Type 0 where
  at :
      (t : Amqp B)
      → Dict.lookup "_response_consumer" t.attributes ≡ none
      → is_returned (m t).0 ≡ false

module _ {B : Type 0} where
  Needs-delete_last : (m : Exec (Amqp B) (Unit {0})) → Needs (delete "_response_consumer" >> m)
  Needs-delete_last m = record { at = λ t h. ground (arith, h) }

  Needs-delete : (name : String) (m : Exec (Amqp B) (Unit {0})) → Needs m → Needs (delete name >> m)
  Needs-delete name m n = record {
    at = λ t h. ground (
      arith,
      h,
      n.at (record t { attributes = Dict.erase name t.attributes }),
      lookup-erase "_response_consumer" name t.attributes,
    );
  }

  Needs-tear_down : Needs (tear_down {B = B})
  unfolding tear_down
  Needs-tear_down = Needs-delete "_connection" _ (
      Needs-delete "_channel" _ (
        Needs-delete "_request_exchange" _ (
          Needs-delete "_response_exchange" _ (
            Needs-delete "_event_exchange" _ (
              Needs-delete "_broadcast_exchange" _
                (Needs-delete "_response_queue" _ (Needs-delete_last _)))))))

module _ {C B : Type 0} (aio_pika : AioPika C B) where
  connect-eq :
      (t : Amqp B) (connection : ℕ) (b : B) (e : PyException)
      → Dict.lookup "_connection" t.attributes ≡ none
      → aio_pika.connect_robust t.options.url t.broker ≡ (returned connection, b)
      → (set_up aio_pika t.options connection (record t {
        attributes = Dict.insert "_connection" connection t.attributes;
        locked = true;
        broker = b;
      })).0
        ≡ raised e
      → connect aio_pika t ≡ (
        raised e,
        record (set_up aio_pika t.options connection (record t {
          attributes = Dict.insert "_connection" connection t.attributes;
          locked = true;
          broker = b;
        })).1 { locked = false },
      )
  unfolding connect
  connect-eq t connection b e idle made failed = rw (idle, made) (ground (arith, failed))

  connect-again :
      (t : Amqp B) (connection : ℕ)
      → t.locked ≡ false
      → Dict.lookup "_connection" t.attributes ≡ some connection
      → connect aio_pika t ≡ (returned tt, t)
  unfolding connect
  connect-again t connection free h = ground (arith, free, h)

  disconnect-raises :
      (t : Amqp B) (connection : ℕ)
      → Dict.lookup "_connection" t.attributes ≡ some connection
      → Dict.lookup "_response_consumer" t.attributes ≡ none
      → is_returned (disconnect aio_pika t).0 ≡ false
  unfolding disconnect
  disconnect-raises t connection h missing =
      let n =
        Needs-tear_down.at
          (record t { locked = true; broker = (aio_pika.close connection t.broker).1 }) missing in
      ground (arith, h, n)

  -- Where `connect` makes the connection and then raises, the transport keeps the connection: another
  -- `connect` returns and does nothing, so that the channel is never made, and `disconnect` raises.
  pub connect-raised :
      (t : Amqp B) (connection : ℕ) (b : B) (e : PyException)
      → Dict.lookup "_connection" t.attributes ≡ none
      → Dict.lookup "_response_consumer" t.attributes ≡ none
      → aio_pika.connect_robust t.options.url t.broker ≡ (returned connection, b)
      → (set_up aio_pika t.options connection (record t {
        attributes = Dict.insert "_connection" connection t.attributes;
        locked = true;
        broker = b;
      })).0
        ≡ raised e
      → ((connect aio_pika t).0 ≡ raised e)
        × (connect aio_pika (connect aio_pika t).1 ≡ (returned tt, (connect aio_pika t).1))
        × (is_returned (disconnect aio_pika (connect aio_pika t).1).0 ≡ false)
  connect-raised t connection b e idle bare made failed =
      let u = record t {
        attributes = Dict.insert "_connection" connection t.attributes;
        locked = true;
        broker = b;
      } in
      let w = (set_up aio_pika t.options connection u).1 in
      let k = set_up-raised aio_pika t.options connection u e failed in
      let kept = k.0 ∙ lookup-insert "_connection" "_connection" connection t.attributes in
      let missing =
        k.1 ∙ lookup-insert "_response_consumer" "_connection" connection t.attributes ∙ bare in
      rw (connect-eq t connection b e idle made failed) (
        refl,
        connect-again (record w { locked = false }) connection refl kept,
        disconnect-raises (record w { locked = false }) connection kept missing,
      )
