-- ===== src/Transport/Amqp/System/Origin.antt =====
-- Where the answers come from that the calls of `send_request` return, over all processes.
use mathlib.Core.Path.{subst}
use atasks.Prelude.{
  ℕ, ◌<◌, String, ◌≡◌, refl, sym, ◌∙◌, ap, inl, inr, false, Option, some, List, ◌∷◌, ◌==◌, nat_eq,
  arith, Bool-cases,
}
use atasks.Codec.{Bytes}
use atasks.Errors.{Exec, returned}
use atasks.Transport.Amqp.Requests
use atasks.Transport.Amqp.Requests.{
  ended, answered, Requests, begin_request, on_response_message, fail_awaiting_requests, begin,
  respond, lose, set_at,
}
use atasks.Transport.Amqp.Handlers.{Delivery, Serving}
use atasks.Transport.Amqp.Requests.Genuine.{answered_lem}
use atasks.Transport.Amqp.Requests.Tracking.{Reach-IsTracked}
use atasks.Transport.Amqp.System.{
  Among, ServingProcess, Response, Request, System, Step, hand_over, serve_request, receive, sends,
  serves, receives, goes_on, computes, message_of, Reach, here, later,
}
use atasks.Transport.Amqp.System.Served.{on_message-cases}
use atasks.Transport.Amqp.System.Calls.{
  Step-mono, Reach-mono, SameCall, Step-SameCall, fail_awaiting_requests-SameCall,
  on_response_message-SameCall,
}

module _ {S : Type 0} (channel : ℕ → Delivery S)
    (handler : ℕ → String → Bytes → Exec S (Option Bytes)) (response_queue : ℕ → String) where
  -- In some process the handler of the name returned the body, on the content of the request.
  abbrev pub Handled : Request → Bytes → Type 0
  Handled m body = (j : ℕ) × (s : S) × ((handler j m.name m.content s).0 ≡ returned (some body))

  abbrev Answered : List Request → Response → Type 0
  Answered requests a =
      (m : Request) × Among m requests
      × (a.routing_key ≡ response_queue m.sender)
      × (a.correlation_id ≡ m.correlation_id)
      × Handled m a.body

  -- What may arrive at the process `i`.
  abbrev Answer : List Request → ℕ → String → Bytes → Type 0
  Answer requests i id body =
      (m : Request) × Among m requests × (m.sender ≡ i) × (m.correlation_id ≡ id) × Handled m body

  abbrev IsAsked : Request → Requests → Type 0
  IsAsked m r =
      (m.call < r.next)
      × ((r.callers m.call).correlation_id ≡ m.correlation_id)
      × ((r.callers m.call).name ≡ m.name)

  record IsTraced (t : System S) : Type 0 where
    reached : (i : ℕ) → Requests.Reach (Answer t.requests i) (t.processes i).requests
    answers :
        (j : ℕ) (a : Response) → Among a (t.processes j).services.responses → Answered t.requests a
    asked : (m : Request) → Among m t.requests → IsAsked m (t.processes m.sender).requests

  -- A process goes on, and begins no call.
  process-IsTraced :
      (t : System S) (i : ℕ) (p : Serving (ServingProcess S))
      → IsTraced t
      → Requests.Reach (Answer t.requests i) p.requests
      → ((f : ℕ) → SameCall (t.processes i).requests f p.requests)
      → ((a : Response) → Among a p.services.responses → Answered t.requests a)
      → IsTraced (record t { processes = set_at t.processes i p })
  process-IsTraced t i p h r same answers = record {
    reached = λ k. elim (Bool-cases (nat_eq k i)) [
      | inl e ↦ rw (e, let e' : k ≡ i = ground (arith, e) in e') r
      | inr e ↦ rw e (h.reached k)
    ];
    answers = λ k a. elim (Bool-cases (nat_eq k i)) [
      | inl e ↦ rw e (answers a)
      | inr e ↦ rw e (h.answers k a)
    ];
    asked = λ m among. ground (arith, h.asked m among, same m.call);
  }

  Answer-cons :
      (m : Request) (requests : List Request) (i : ℕ) (id : String) (body : Bytes)
      → Answer requests i id body
      → Answer (m ∷ requests) i id body
  Answer-cons m requests i id body a = (a.0, inr a.1, a.2, a.3, a.4)

  hand_over-IsTraced :
      (t : System S) (i : ℕ) (name : String) (timeout : Option ℕ) (id : String) (content : Bytes)
      → IsTraced t
      → (t.processes i).requests.locked ≡ false
      → ((f : ℕ)
          → f < (t.processes i).requests.next
          → (((t.processes i).requests.callers f).correlation_id == id) ≡ false)
      → IsTraced (hand_over i name timeout id content t)
  unfolding hand_over begin_request
  hand_over-IsTraced t i name timeout id content h free fresh =
      let old = (t.processes i).requests in
      let m : Request = record {
        sender = i;
        call = old.next;
        correlation_id = id;
        name = name;
        content = content;
      } in
      let r : Requests.Reach (Answer t.requests i) (begin_request name timeout id old) =
        Requests.later (h.reached i) (begin name timeout id free fresh) in
      record {
        reached = λ k. elim (Bool-cases (nat_eq k i)) [
          | inl e ↦
              let e' : k ≡ i = ground (arith, e) in
              rw (e, e') (Reach-mono (Answer-cons m t.requests i) r)
          | inr e ↦ rw e (Reach-mono (Answer-cons m t.requests k) (h.reached k))
        ];
        answers = λ k a among.
            let same : ((hand_over i name timeout id content t).processes k).services.responses
                ≡ (t.processes k).services.responses =
              ground arith in
            let b = h.answers k a (subst (Among a) same among) in (b.0, inr b.1, b.2, b.3, b.4);
        asked = λ n among. elim among [
          | inl e ↦ ground (arith, e)
          | inr old ↦ ground (arith, h.asked n old)
        ];
      }

  serve_request-IsTraced :
      (t : System S) (j : ℕ) (m : Request)
      → IsTraced t
      → Among m t.requests
      → IsTraced (serve_request channel handler response_queue j m t)
  unfolding serve_request
  serve_request-IsTraced t j m h among =
      let p = t.processes j in
      let c = on_message-cases (channel j) (handler j m.name) (message_of response_queue m) p in
      process-IsTraced t j _ h
        (elim c.0 [ inl e ↦ rw e (h.reached j) | inr e ↦ rw e (Requests.later (h.reached j) lose) ])
        (λ f. elim c.0 [
          | inl e ↦ rw e (refl, refl, refl)
          | inr e ↦ rw e (fail_awaiting_requests-SameCall p.requests f)
        ])
        (λ a given. elim c.1 [
          | inl e ↦ h.answers j a (subst (Among a) e given)
          | inr (body, s, returns, e) ↦ elim (let g = subst (Among a) e given in g) [
            | inl new ↦ (
              m,
              among,
              ap (λ x. x.routing_key) (sym new),
              ap (λ x. x.correlation_id) (sym new),
              (j, s, returns ∙ ap (λ x. returned (some x.body)) new),
            )
            | inr old ↦ h.answers j a old
          ]
        ])

  receive-IsTraced :
      (t : System S) (i j : ℕ) (a : Response)
      → ((k l : ℕ) → response_queue k ≡ response_queue l → k ≡ l)
      → IsTraced t
      → Among a (t.processes j).services.responses
      → a.routing_key ≡ response_queue i
      → IsTraced (receive i a t)
  unfolding receive
  receive-IsTraced t i j a distinct h given key =
      let (m, among, to, id, handled) = h.answers j a given in
      let answer : Answer t.requests i a.correlation_id a.body =
        (m, among, distinct m.sender i (sym to ∙ key), sym id, handled) in
      process-IsTraced t i _ h
        (Requests.later (h.reached i) (respond a.correlation_id a.body answer))
        (on_response_message-SameCall (t.processes i).requests a.correlation_id a.body)
        (h.answers i)

  module _ (distinct : (k l : ℕ) → response_queue k ≡ response_queue l → k ≡ l) where
    Step-IsTraced :
        {t u : System S} → Step channel handler response_queue t u → IsTraced t → IsTraced u
    Step-IsTraced (sends {t} i name timeout id content free fresh) h =
        hand_over-IsTraced t i name timeout id content h free fresh
    Step-IsTraced (serves {t} j m among) h = serve_request-IsTraced t j m h among
    Step-IsTraced (receives {t} i j a given key) h = receive-IsTraced t i j a distinct h given key
    Step-IsTraced (goes_on {t} i r st e) h =
        process-IsTraced t i _ h
          (Requests.later (h.reached i) (Step-mono (λ id body none. absurd none) st))
          (Step-SameCall st e) (h.answers i)
    Step-IsTraced (computes {t} i s) h =
        process-IsTraced t i _ h (h.reached i) (λ f. (refl, refl, refl)) (h.answers i)

    Reach-IsTraced : {t : System S} → Reach channel handler response_queue t → IsTraced t
    Reach-IsTraced (here applications) = record {
      reached = λ i. Requests.here;
      answers = λ j a given. absurd given;
      asked = λ m among. absurd among;
    }
    Reach-IsTraced (later r st) = Step-IsTraced st (Reach-IsTraced r)

    -- Whatever the broker delivers, in any order and as often as it likes, and whatever connections
    -- are lost and calls cancelled: a call that returned a body sent a request with its own name,
    -- and in some process the handler of that name returned this body on the content of just that
    -- request. The response queues of the processes have different names.
    pub answered-handled :
        {t : System S}
        → Reach channel handler response_queue t
        → (i f : ℕ) (body : Bytes)
        → ((t.processes i).requests.callers f).phase ≡ ended (answered body)
        → (m : Request) × Among m t.requests
          × (m.sender ≡ i)
          × (m.call ≡ f)
          × (m.name ≡ ((t.processes i).requests.callers f).name)
          × (j : ℕ) × (s : S) × ((handler j m.name m.content s).0 ≡ returned (some body))
    answered-handled {t} r i f body e =
        let h = Reach-IsTraced r in
        let (m, among, from, id, handled) = answered_lem (h.reached i) f body e in
        let k = Reach-IsTracked (h.reached i) in
        let a : IsAsked m (t.processes i).requests =
          subst (λ x. IsAsked m (t.processes x).requests) from (h.asked m among) in
        let known : f < (t.processes i).requests.next = ground (arith, e, k.unused f) in
        let same : m.call ≡ f = k.single m.call f a.0 known (a.1 ∙ id) in
        (
          m,
          among,
          from,
          same,
          sym a.2 ∙ ap (λ x. ((t.processes i).requests.callers x).name) same,
          handled.0,
          handled.1,
          handled.2,
        )
