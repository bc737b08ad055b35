-- ===== src/Transport/Amqp/Connection/Kept.antt =====
-- What the steps of `connect` leave as it was.
use atasks.Prelude.{ℕ, String, ◌≡◌, refl, false, List, [], ◌∷◌, ◌==◌, arith, ◌∙◌, inl, inr}
use atasks.Prelude.Lists.{contains}
use atasks.Prelude.Dict
use atasks.Prelude.Dict.{Dict, lookup-insert, lookup-erase}
use atasks.Errors.{Exec, returned, Outcome-cases, ◌>>=◌}
use atasks.Transport.Amqp.Connection.{
  AioPika, Amqp, on_broker, set_attribute, get_exchange, Options, open_channel, set_exchange,
  open_responses, prepare,
}

-- An action that leaves one attribute as it was.
pub record Keeps {B A : Type 0} (x : String) (m : Exec (Amqp B) A) : Type 0 where
  pub at : (t : Amqp B) → Dict.lookup x (m t).1.attributes ≡ Dict.lookup x t.attributes

-- The attributes that `prepare` sets.
abbrev prepared : List String
prepared =
    "_channel" ∷ "_request_exchange" ∷ "_response_exchange" ∷ "_event_exchange"
    ∷ "_broadcast_exchange" ∷ "_response_queue" ∷ []

module _ {B : Type 0} (x : String) where
  Keeps-bind :
      {A A' : Type 0} (m : Exec (Amqp B) A) (k : A → Exec (Amqp B) A')
      → Keeps x m
      → ((a : A) → Keeps x (k a))
      → Keeps x (m >>= k)
  Keeps-bind m k km kk = record {
    at = λ t. elim (Outcome-cases (m t).0) [
      | inl (a, e) ↦ rw e ((kk a).at (m t).1 ∙ km.at t)
      | inr (p, e) ↦ rw e (km.at t)
    ];
  }

  Keeps-set_attribute :
      (name : String) (value : ℕ) → (name == x) ≡ false → Keeps x (set_attribute {B = B} name value)
  Keeps-set_attribute name value other = record {
    at = λ t. ground (arith, lookup-insert x name value t.attributes, other);
  }

  Keeps-on_broker : {A : Type 0} (m : Exec B A) → Keeps x (on_broker m)
  Keeps-on_broker m = record { at = λ t. refl }

  module _ {C : Type 0} (aio_pika : AioPika C B) where
    Keeps-get_exchange :
        (declared : Dict ℕ) (name : String) → Keeps x (get_exchange aio_pika declared name)
    unfolding get_exchange
    Keeps-get_exchange declared name = record { at = λ t. ground arith }

    Keeps-open_channel :
        (connection : ℕ) → ("_channel" == x) ≡ false → Keeps x (open_channel aio_pika connection)
    unfolding open_channel
    Keeps-open_channel connection h =
        let made = on_broker (aio_pika.channel connection) in
        Keeps-bind made _ (Keeps-on_broker (aio_pika.channel connection)) λ channel.
          Keeps-bind (set_attribute "_channel" channel) (λ _ t. (returned channel, t))
            (Keeps-set_attribute "_channel" channel h) λ _. record { at = λ t. refl }

    Keeps-set_exchange :
        (name : String) (declared : Dict ℕ) (exchange : String)
        → (name == x) ≡ false
        → Keeps x (set_exchange aio_pika name declared exchange)
    unfolding set_exchange
    Keeps-set_exchange name declared exchange h =
        Keeps-bind (get_exchange aio_pika declared exchange) _
          (Keeps-get_exchange declared exchange)
          λ r.
            Keeps-bind (set_attribute name r.0) (λ _ t. (returned (r.0, r.1), t))
              (Keeps-set_attribute name r.0 h) λ _. record { at = λ t. refl }

    Keeps-open_responses :
        (channel exchange : ℕ)
        → ("_response_queue" == x) ≡ false
        → Keeps x (open_responses aio_pika channel exchange)
    unfolding open_responses
    Keeps-open_responses channel exchange h =
        let declare = aio_pika.declare_reply_queue channel in
        let qos = aio_pika.set_qos channel in
        Keeps-bind (on_broker declare) _ (Keeps-on_broker declare) λ q.
          let bind = λ (b : B). aio_pika.bind q exchange (aio_pika.name_of q b) b in
          let consume = aio_pika.consume_responses q in
          Keeps-bind (set_attribute "_response_queue" q) _
            (Keeps-set_attribute "_response_queue" q h)
            λ _.
              Keeps-bind (on_broker bind) _ (Keeps-on_broker bind)
                λ _. Keeps-bind (on_broker qos) _ (Keeps-on_broker qos) λ _. Keeps-on_broker consume

    pub Keeps-prepare :
        (options : Options) (connection : ℕ)
        → contains x prepared ≡ false
        → Keeps x (prepare aio_pika options connection)
    unfolding prepare
    Keeps-prepare options connection h =
        let request = options.request_exchange_name in
        let response = options.response_exchange_name in
        let event = options.event_exchange_name in
        let broadcast = options.broadcast_exchange_name in
        Keeps-bind (open_channel aio_pika connection) _
          (Keeps-open_channel connection (ground (arith, h)))
          λ channel.
            Keeps-bind (set_exchange aio_pika "_request_exchange" [] request) _
              (Keeps-set_exchange "_request_exchange" [] request (ground (arith, h)))
              λ r.
                Keeps-bind (set_exchange aio_pika "_response_exchange" r.1 response) _
                  (Keeps-set_exchange "_response_exchange" r.1 response (ground (arith, h)))
                  λ s.
                    Keeps-bind (set_exchange aio_pika "_event_exchange" s.1 event) _
                      (Keeps-set_exchange "_event_exchange" s.1 event (ground (arith, h)))
                      λ e.
                        Keeps-bind (set_exchange aio_pika "_broadcast_exchange" e.1 broadcast) _
                          (Keeps-set_exchange "_broadcast_exchange" e.1 broadcast
                            (ground (arith, h)))
                          λ b. Keeps-open_responses channel s.0 (ground (arith, h))
