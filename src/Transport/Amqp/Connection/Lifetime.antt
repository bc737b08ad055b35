-- ===== src/Transport/Amqp/Connection/Lifetime.antt =====
-- `connect` and `disconnect` of an `AMQPTransport`: what a successful `connect` sets, and what
-- `disconnect` takes away.
use atasks.Prelude.{
  ℕ, String, ◌≡◌, refl, true, false, none, some, List, [], ◌∷◌, eq_iff, arith, ◌∙◌, is_some,
  Option-cases, inl, inr,
}
use atasks.Prelude.Lists.{contains}
use atasks.Prelude.Dict
use atasks.Prelude.Dict.{Dict, lookup-insert, lookup-erase}
use atasks.Hop.{Kind}
use atasks.Errors.{Exec, returned, ◌>>=◌, ◌>>◌}
use atasks.Transport.Amqp.Connection.{
  AioPika, Options, Amqp, on_broker, set_attribute, delete, set_up, connect, tear_down, disconnect,
}
use atasks.Transport.Amqp.Connection.Driven.{is_set_up}
use atasks.Transport.Amqp.Connection.Growth.{
  set_up_attributes, has_all, Grows, Grows-bind, Grows-set_attribute, Grows-on_broker, Grows-set_up,
}

has_all-erase :
    {B : Type 0} (x : String) (xs : List String) (t : Amqp B)
    → contains x xs ≡ false
    → has_all xs t ≡ true
    → has_all xs (record t { attributes = Dict.erase x t.attributes }) ≡ true
has_all-erase x [] t h e = refl
has_all-erase x (y ∷ ys) t h e =
    ground
      (arith, h, e, has_all-erase x ys t, lookup-erase y x t.attributes, eq_iff x y, eq_iff y x)

-- An action that returns where the attributes are there, clears the tables, and makes no connection.
record Tears {B : Type 0} (xs : List String) (m : Exec (Amqp B) (Unit {0})) : Type 0 where
  at :
      (t : Amqp B)
      → has_all xs t ≡ true
      → ((m t).0 ≡ returned tt)
        × ((k : Kind) → (m t).1.queues k ≡ [])
        × ((k : Kind) → (m t).1.consumers k ≡ [])
  gone :
      (t : Amqp B)
      → Dict.lookup "_connection" t.attributes ≡ none
      → Dict.lookup "_connection" (m t).1.attributes ≡ none

module _ {B : Type 0} where
  Tears-delete :
      (x : String) (xs : List String) (m : Exec (Amqp B) (Unit {0}))
      → contains x xs ≡ false
      → Tears xs m
      → Tears (x ∷ xs) (delete x >> m)
  Tears-delete x xs m other tears = record {
    at = λ t h. elim (Option-cases (Dict.lookup x t.attributes)) [
      | inl e ↦ absurd (ground (arith, h, e))
      | inr (v, e) ↦
          rw (e, delete)
            (tears.at (record t { attributes = Dict.erase x t.attributes })
              (has_all-erase x xs t other (ground (arith, h))))
    ];
    gone = λ t h. elim (Option-cases (Dict.lookup x t.attributes)) [
      | inl e ↦ rw (e, delete) h
      | inr (v, e) ↦
          rw (e, delete)
            (tears.gone (record t { attributes = Dict.erase x t.attributes })
              (lookup-erase "_connection" x t.attributes ∙ ground (arith, h)))
    ];
  }

  Tears-rest : Tears {B = B} set_up_attributes (do
    delete "_channel"
    delete "_request_exchange"
    delete "_response_exchange"
    delete "_event_exchange"
    delete "_broadcast_exchange"
    delete "_response_queue"
    delete "_response_consumer"
    λ t. (returned tt, record t { queues = λ _. []; consumers = λ _. [] }))
  Tears-rest = Tears-delete "_channel" _ _ refl (
      Tears-delete "_request_exchange" _ _ refl (
        Tears-delete "_response_exchange" _ _ refl (
          Tears-delete "_event_exchange" _ _ refl (
            Tears-delete "_broadcast_exchange" _ _ refl (
              Tears-delete "_response_queue" _ _ refl (
                Tears-delete "_response_consumer" [] _ refl
                  record { at = λ t h. (refl, λ k. refl, λ k. refl); gone = λ t h. h }))))))

  tear_down_lem :
      (t : Amqp B)
      → has_all ("_connection" ∷ set_up_attributes) t ≡ true
      → ((tear_down t).0 ≡ returned tt)
        × ((k : Kind) → (tear_down t).1.queues k ≡ [])
        × ((k : Kind) → (tear_down t).1.consumers k ≡ [])
        × (Dict.lookup "_connection" (tear_down t).1.attributes ≡ none)
  unfolding tear_down
  tear_down_lem t h = elim (Option-cases (Dict.lookup "_connection" t.attributes)) [
    | inl e ↦ absurd (ground (arith, h, e))
    | inr (v, e) ↦
        let u = record t { attributes = Dict.erase "_connection" t.attributes } in
        let r =
          Tears-rest.at u
            (has_all-erase "_connection" set_up_attributes t refl (ground (arith, h))) in
        let g = Tears-rest.gone u (lookup-erase "_connection" "_connection" t.attributes) in
        rw (e, delete) (r.0, r.1, r.2, g)
  ]

module _ {C B : Type 0} (aio_pika : AioPika C B) where
  -- What `connect` does where there is no connection.
  abbrev make : Options → Exec (Amqp B) (Unit {0})
  make options = do
    connection ← on_broker (aio_pika.connect_robust options.url)
    set_attribute "_connection" connection
    set_up aio_pika options connection

  Grows-make : (options : Options) → Grows ("_connection" ∷ set_up_attributes) (make options)
  Grows-make options =
      let made = aio_pika.connect_robust options.url in
      Grows-bind [] ("_connection" ∷ set_up_attributes) (on_broker made) _ (Grows-on_broker made)
        λ connection.
          Grows-bind ("_connection" ∷ []) set_up_attributes (set_attribute "_connection" connection)
            (λ _. set_up aio_pika options connection) (Grows-set_attribute "_connection" connection)
            λ _. Grows-set_up aio_pika options connection

  connect-make :
      (t : Amqp B)
      → Dict.lookup "_connection" t.attributes ≡ none
      → connect aio_pika t ≡ (
        (make t.options (record t { locked = true })).0,
        record (make t.options (record t { locked = true })).1 { locked = false },
      )
  unfolding connect
  connect-make t idle = rw (idle, is_some) refl

  connect-has_all :
      (t : Amqp B)
      → Dict.lookup "_connection" t.attributes ≡ none
      → (connect aio_pika t).0 ≡ returned tt
      → has_all ("_connection" ∷ set_up_attributes) (connect aio_pika t).1 ≡ true
  connect-has_all t idle done = rw (connect-make t idle) (
      (Grows-make t.options).sets (record t { locked = true }) tt
        (rw (connect-make t idle) at done))

  disconnect-eq :
      (t : Amqp B) (connection : ℕ)
      → Dict.lookup "_connection" t.attributes ≡ some connection
      → (aio_pika.close connection t.broker).0 ≡ returned tt
      → disconnect aio_pika t ≡ (
        (tear_down (record t { locked = true; broker = (aio_pika.close connection t.broker).1 })).0,
        record (tear_down
            (record t { locked = true; broker = (aio_pika.close connection t.broker).1 })).1 {
              locked = false;
            },
      )
  unfolding disconnect
  disconnect-eq t connection e c = ground (arith, e, c)

  disconnect-has_all :
      (t : Amqp B)
      → has_all ("_connection" ∷ set_up_attributes) t ≡ true
      → ((connection : ℕ) (b : B) → (aio_pika.close connection b).0 ≡ returned tt)
      → ((disconnect aio_pika t).0 ≡ returned tt)
        × ((k : Kind) → (disconnect aio_pika t).1.queues k ≡ [])
        × ((k : Kind) → (disconnect aio_pika t).1.consumers k ≡ [])
        × (Dict.lookup "_connection" (disconnect aio_pika t).1.attributes ≡ none)
  disconnect-has_all t h closes = elim (Option-cases (Dict.lookup "_connection" t.attributes)) [
    | inl e ↦ absurd (ground (arith, h, e))
    | inr (connection, e) ↦
        let u = record t { locked = true; broker = (aio_pika.close connection t.broker).1 } in
        let l = tear_down_lem u h in
        rw (disconnect-eq t connection e (closes connection t.broker)) l
  ]

  disconnect-unlocks : (t : Amqp B) → (disconnect aio_pika t).1.locked ≡ false
  unfolding disconnect
  disconnect-unlocks t = refl

  -- A `connect` that returns on a transport that was not connected has set what the registrations
  -- read; and where the broker closes the connection, a `disconnect` after it returns, with no
  -- connection, no queue and no consumer left, and the lock free.
  pub disconnect-connect :
      (t : Amqp B) (k : Kind)
      → Dict.lookup "_connection" t.attributes ≡ none
      → (connect aio_pika t).0 ≡ returned tt
      → ((connection : ℕ) (b : B) → (aio_pika.close connection b).0 ≡ returned tt)
      → (is_set_up (connect aio_pika t).1 ≡ true)
        × ((disconnect aio_pika (connect aio_pika t).1).0 ≡ returned tt)
        × (Dict.lookup "_connection" (disconnect aio_pika (connect aio_pika t).1).1.attributes
            ≡ none)
        × ((disconnect aio_pika (connect aio_pika t).1).1.queues k ≡ [])
        × ((disconnect aio_pika (connect aio_pika t).1).1.consumers k ≡ [])
        × ((disconnect aio_pika (connect aio_pika t).1).1.locked ≡ false)
  disconnect-connect t k idle done closes =
      let h = connect-has_all t idle done in
      let d = disconnect-has_all (connect aio_pika t).1 h closes in
      (ground (arith, h), d.0, d.3, d.1 k, d.2 k, disconnect-unlocks (connect aio_pika t).1)
