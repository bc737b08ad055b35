-- ===== src/Transport/Amqp/Connection/Growth.antt =====
-- What the steps of `connect` set.
use atasks.Prelude.{
  ℕ, String, ◌≡◌, refl, Bool, true, ◌&&◌, List, [], ◌∷◌, ◌++◌, eq_iff, arith, ◌∙◌, inl, inr,
}
use atasks.Prelude.Dict.{Dict, lookup-insert}
use atasks.Errors.{Exec, returned, Outcome-cases, ◌>>=◌}
use atasks.Transport.Amqp.Connection.{
  AioPika, Options, Amqp, on_broker, set_attribute, hasattr, get_exchange, open_channel,
  set_exchange, open_responses, prepare, set_up,
}

-- All that `set_up` sets.
abbrev pub set_up_attributes : List String
set_up_attributes =
    "_channel" ∷ "_request_exchange" ∷ "_response_exchange" ∷ "_event_exchange"
    ∷ "_broadcast_exchange" ∷ "_response_queue" ∷ "_response_consumer" ∷ []

abbrev pub has_all : {B : Type 0} → List String → Amqp B → Bool
has_all [] t = true
has_all (x ∷ xs) t = hasattr x t && has_all xs t

pub has_all-append :
    {B : Type 0} (xs ys : List String) (t : Amqp B)
    → has_all (xs ++ ys) t ≡ (has_all xs t && has_all ys t)
has_all-append [] ys t = refl
has_all-append (x ∷ xs) ys t = ground (arith, has_all-append xs ys t)

-- An action that takes no attribute away, and that, where it returns, has set the given ones.
pub record Grows {B A : Type 0} (xs : List String) (m : Exec (Amqp B) A) : Type 0 where
  pub holds : (x : String) (t : Amqp B) → hasattr x t ≡ true → hasattr x (m t).1 ≡ true
  pub sets : (t : Amqp B) (a : A) → (m t).0 ≡ returned a → has_all xs (m t).1 ≡ true

pub Grows-has_all :
    {B A : Type 0} {ys : List String} (m : Exec (Amqp B) A) (xs : List String) (t : Amqp B)
    → Grows ys m
    → has_all xs t ≡ true
    → has_all xs (m t).1 ≡ true
Grows-has_all m [] t h e = refl
Grows-has_all m (x ∷ xs) t h e = ground (arith, e, h.holds x t, Grows-has_all m xs t h)

module _ {B : Type 0} where
  pub Grows-bind :
      {A A' : Type 0} (xs ys : List String) (m : Exec (Amqp B) A) (k : A → Exec (Amqp B) A')
      → Grows xs m
      → ((a : A) → Grows ys (k a))
      → Grows (xs ++ ys) (m >>= k)
  Grows-bind xs ys m k gm gk = record {
    holds = λ x t h. elim (Outcome-cases (m t).0) [
      | inl (a, e) ↦ rw e ((gk a).holds x (m t).1 (gm.holds x t h))
      | inr (p, e) ↦ rw e (gm.holds x t h)
    ];
    sets = λ t v r. elim (Outcome-cases (m t).0) [
      | inl (a, e) ↦
          let r' : (k a (m t).1).0 ≡ returned v = ground (arith, e, r) in
          rw e (
            has_all-append xs ys (k a (m t).1).1
            ∙ ground (
              arith,
              Grows-has_all (k a) xs (m t).1 (gk a) (gm.sets t a e),
              (gk a).sets (m t).1 v r',
            ))
      | inr (p, e) ↦ absurd (ground (arith, e, r))
    ];
  }

  pub Grows-set_attribute :
      (name : String) (value : ℕ) → Grows (name ∷ []) (set_attribute {B = B} name value)
  Grows-set_attribute name value = record {
    holds = λ x t h. ground (arith, h, lookup-insert x name value t.attributes);
    sets = λ t a r. ground (arith, lookup-insert name name value t.attributes, eq_iff name name);
  }

  pub Grows-on_broker : {A : Type 0} (m : Exec B A) → Grows [] (on_broker m)
  Grows-on_broker m = record { holds = λ x t h. h; sets = λ t a r. refl }

  pub Grows-pure : {A : Type 0} (a : A) → Grows {B = B} [] (λ t. (returned a, t))
  Grows-pure a = record { holds = λ x t h. h; sets = λ t b r. refl }

module _ {C B : Type 0} (aio_pika : AioPika C B) where
  Grows-get_exchange :
      (declared : Dict ℕ) (name : String) → Grows [] (get_exchange aio_pika declared name)
  unfolding get_exchange
  Grows-get_exchange declared name = record {
    holds = λ x t h. ground (arith, h);
    sets = λ t a r. refl;
  }

  Grows-open_channel : (connection : ℕ) → Grows ("_channel" ∷ []) (open_channel aio_pika connection)
  unfolding open_channel
  Grows-open_channel connection =
      let made = aio_pika.channel connection in
      Grows-bind [] ("_channel" ∷ []) (on_broker made) _ (Grows-on_broker made) λ channel.
        Grows-bind ("_channel" ∷ []) [] (set_attribute "_channel" channel)
          (λ _ t. (returned channel, t)) (Grows-set_attribute "_channel" channel)
          λ _. Grows-pure channel

  Grows-set_exchange :
      (name : String) (declared : Dict ℕ) (exchange : String)
      → Grows (name ∷ []) (set_exchange aio_pika name declared exchange)
  unfolding set_exchange
  Grows-set_exchange name declared exchange =
      Grows-bind [] (name ∷ []) (get_exchange aio_pika declared exchange) _
        (Grows-get_exchange declared exchange)
        λ r.
          Grows-bind (name ∷ []) [] (set_attribute name r.0) (λ _ t. (returned (r.0, r.1), t))
            (Grows-set_attribute name r.0) λ _. Grows-pure (r.0, r.1)

  Grows-open_responses :
      (channel exchange : ℕ)
      → Grows ("_response_queue" ∷ []) (open_responses aio_pika channel exchange)
  unfolding open_responses
  Grows-open_responses channel exchange =
      let declare = aio_pika.declare_reply_queue channel in
      let qos = aio_pika.set_qos channel in
      Grows-bind [] ("_response_queue" ∷ []) (on_broker declare) _ (Grows-on_broker declare) λ q.
        let bind = λ (b : B). aio_pika.bind q exchange (aio_pika.name_of q b) b in
        Grows-bind ("_response_queue" ∷ []) [] (set_attribute "_response_queue" q) _
          (Grows-set_attribute "_response_queue" q)
          λ _. Grows-bind [] [] (on_broker bind) _ (Grows-on_broker bind) λ _.
            Grows-bind [] [] (on_broker qos) _ (Grows-on_broker qos)
              λ _. Grows-on_broker (aio_pika.consume_responses q)

  Grows-prepare :
      (options : Options) (connection : ℕ)
      → Grows
          ("_channel" ∷ "_request_exchange" ∷ "_response_exchange" ∷ "_event_exchange"
            ∷ "_broadcast_exchange" ∷ "_response_queue" ∷ [])
          (prepare aio_pika options connection)
  unfolding prepare
  Grows-prepare options connection =
      let request = options.request_exchange_name in
      let response = options.response_exchange_name in
      let event = options.event_exchange_name in
      let broadcast = options.broadcast_exchange_name in
      Grows-bind ("_channel" ∷ []) _ (open_channel aio_pika connection) _
        (Grows-open_channel connection)
        λ channel.
          Grows-bind ("_request_exchange" ∷ []) _
            (set_exchange aio_pika "_request_exchange" [] request) _
            (Grows-set_exchange "_request_exchange" [] request)
            λ r.
              Grows-bind ("_response_exchange" ∷ []) _
                (set_exchange aio_pika "_response_exchange" r.1 response) _
                (Grows-set_exchange "_response_exchange" r.1 response)
                λ s.
                  Grows-bind ("_event_exchange" ∷ []) _
                    (set_exchange aio_pika "_event_exchange" s.1 event) _
                    (Grows-set_exchange "_event_exchange" s.1 event)
                    λ e.
                      Grows-bind ("_broadcast_exchange" ∷ []) _
                        (set_exchange aio_pika "_broadcast_exchange" e.1 broadcast) _
                        (Grows-set_exchange "_broadcast_exchange" e.1 broadcast)
                        λ b. Grows-open_responses channel s.0

  pub Grows-set_up :
      (options : Options) (connection : ℕ)
      → Grows set_up_attributes (set_up aio_pika options connection)
  unfolding set_up
  Grows-set_up options connection =
      Grows-bind _ ("_response_consumer" ∷ []) (prepare aio_pika options connection)
        (set_attribute "_response_consumer") (Grows-prepare options connection)
        (λ consumer. Grows-set_attribute "_response_consumer" consumer)
