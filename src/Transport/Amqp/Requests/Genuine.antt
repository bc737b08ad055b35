-- ===== src/Transport/Amqp/Requests/Genuine.antt =====
-- Where the answers of the callers of `send_request` come from.
use mathlib.Core.Path.{subst, subst₂}
use atasks.Prelude.{
  ℕ, String, ◌≡◌, ◌⊎◌, inl, inr, false, Option, [], nat_eq, arith, Bool-cases, Option-cases,
}
use atasks.Prelude.Dict
use atasks.Prelude.Dict.{Dict, lookup-insert, lookup-erase, lookup-nil}
use atasks.Codec.{Bytes}
use atasks.Transport.Amqp.Requests.{
  result, waiting, ended, answered, was_cancelled, Publish, published, publish_error,
  cancelled_error, publish_failed, Requests, begin_request, fail_all, fail_awaiting_requests,
  task_was_actually_cancelled, after_publish, on_response_message, conclude, expire, cancel_waiting,
  Step, begin, publish, respond, lose, resume, time_out, cancel, message, Reach, here, later,
  with_phase, finish_with,
}
use atasks.Transport.Amqp.Requests.Tracked.{IsTracked}
use atasks.Transport.Amqp.Requests.Tracking.{Reach-IsTracked}
use atasks.Transport.Amqp.Requests.Failing.{
  fail_all-cases, fail_awaiting_requests_lem, publish_message-cases,
}

-- Every answer was a response with the correlation id of the call that got it.
record IsGenuine (Responded : String → Bytes → Type 0) (s : Requests) : Type 0 where
  by_future :
      (f : ℕ) (body : Bytes)
      → s.futures f ≡ result body
      → Responded (s.callers f).correlation_id body
  by_caller :
      (f : ℕ) (body : Bytes)
      → (s.callers f).phase ≡ ended (answered body)
      → Responded (s.callers f).correlation_id body

module _ {Responded : String → Bytes → Type 0} where
  -- A change that gives no future a result, and makes no call end with an answer.
  IsGenuine-keep :
      (s t : Requests)
      → IsGenuine Responded s
      → ((f : ℕ) (body : Bytes)
          → t.futures f ≡ result body
          → (s.futures f ≡ result body)
            × ((s.callers f).correlation_id ≡ (t.callers f).correlation_id))
      → ((f : ℕ) (body : Bytes)
          → (t.callers f).phase ≡ ended (answered body)
          → ((s.futures f ≡ result body) ⊎ ((s.callers f).phase ≡ ended (answered body)))
            × ((s.callers f).correlation_id ≡ (t.callers f).correlation_id))
      → IsGenuine Responded t
  IsGenuine-keep s t h keep keep' = record {
    by_future = λ f body e.
        let (e', same) = keep f body e in
        subst (λ id. Responded id body) same (h.by_future f body e');
    by_caller = λ f body e.
        let (o, same) = keep' f body e in
        elim o [
          | inl e' ↦ subst (λ id. Responded id body) same (h.by_future f body e')
          | inr e' ↦ subst (λ id. Responded id body) same (h.by_caller f body e')
        ];
  }

  fail_awaiting_requests-IsGenuine :
      (s : Requests) → IsGenuine Responded s → IsGenuine Responded (fail_awaiting_requests s)
  fail_awaiting_requests-IsGenuine s h = rw (fail_awaiting_requests_lem s) (
      IsGenuine-keep s
        (record s { awaiting_requests = []; futures = fail_all s.awaiting_requests s.futures }) h
        (λ f body e. ground (arith, e, fail_all-cases s.awaiting_requests s.futures f))
        (λ f body e. ground (arith, e)))

  with_phase-IsGenuine :
      (s : Requests) (f : ℕ) → IsGenuine Responded s → IsGenuine Responded (with_phase s f waiting)
  with_phase-IsGenuine s f h =
      IsGenuine-keep s _ h (λ g body e. ground (arith, e)) (λ g body e. ground (arith, e))

  after_publish-IsGenuine :
      (s : Requests) (f : ℕ) (outcome : Publish) (task : Option (Option ℕ))
      → IsGenuine Responded s
      → IsGenuine Responded (after_publish f outcome task s)
  unfolding after_publish
  after_publish-IsGenuine s f outcome task h = go outcome
    where
      free : IsGenuine Responded (record s { locked = false })
      free = record { by_future = h.by_future; by_caller = h.by_caller }

      lost :
          IsGenuine Responded
            (with_phase (fail_awaiting_requests (record s { locked = false })) f waiting)
      lost = with_phase-IsGenuine _ f (fail_awaiting_requests-IsGenuine _ free)

      go : (outcome : Publish) → IsGenuine Responded (after_publish f outcome task s)
      go published = with_phase-IsGenuine _ f free
      go publish_error =
          IsGenuine-keep s _ h (λ g body e. ground (arith, e)) (λ g body e. ground (arith, e))
      go cancelled_error = elim (Bool-cases (task_was_actually_cancelled task)) [
        | inl e ↦ rw e (
            IsGenuine-keep s (finish_with (record s { locked = false }) f was_cancelled) h
              (λ g body e. ground (arith, e)) (λ g body e. ground (arith, e)))
        | inr e ↦ rw e lost
      ]
      go publish_failed = lost

  on_response_message-IsGenuine :
      (s : Requests) (id : String) (body : Bytes)
      → IsTracked s
      → Responded id body
      → IsGenuine Responded s
      → IsGenuine Responded (on_response_message id body s)
  unfolding on_response_message
  on_response_message-IsGenuine s id body k r h =
      elim (Option-cases (Dict.lookup id s.awaiting_requests)) [
        | inl e ↦ rw (e, on_response_message) h
        | inr (g, e) ↦
            let a = k.awaited id g e in
            rw (e, a.3, on_response_message)
              record {
                by_future = λ f body' l. elim (Bool-cases (nat_eq g f)) [
                  | inl same ↦
                      subst₂ Responded (ground (arith, same, a)) (ground (arith, same, l)) r
                  | inr other ↦ h.by_future f body' (ground (arith, other, l))
                ];
                by_caller = h.by_caller;
              }
      ]

  Step-IsGenuine :
      {s t : Requests}
      → Step Responded s t
      → IsTracked s
      → IsGenuine Responded s
      → IsGenuine Responded t
  unfolding begin_request conclude expire cancel_waiting
  Step-IsGenuine (begin {s} name timeout id free fresh) k h =
      IsGenuine-keep s _ h (λ f body e. ground (arith, e, k.unused f))
        (λ f body e. ground (arith, e))
  Step-IsGenuine (publish {s} f outcome task p) k h = after_publish-IsGenuine s f outcome task h
  Step-IsGenuine (respond {s} id body r) k h = on_response_message-IsGenuine s id body k r h
  Step-IsGenuine (message {s} name outcome task free) k h =
      elim (publish_message-cases name outcome task s) [
        | inl e ↦ rw e h
        | inr e ↦ rw e (fail_awaiting_requests-IsGenuine s h)
      ]
  Step-IsGenuine (lose {s}) k h = fail_awaiting_requests-IsGenuine s h
  Step-IsGenuine (resume {s} f p) k h =
      IsGenuine-keep s _ h (λ f body e. ground (arith, e)) (λ f body e. ground (arith, e))
  Step-IsGenuine (time_out {s} f p timed) k h =
      IsGenuine-keep s _ h (λ f body e. ground (arith, e)) (λ f body e. ground (arith, e))
  Step-IsGenuine (cancel {s} f p) k h =
      IsGenuine-keep s _ h (λ f body e. ground (arith, e)) (λ f body e. ground (arith, e))

  Reach-IsGenuine : {s : Requests} → Reach Responded s → IsGenuine Responded s
  Reach-IsGenuine here = record { by_future = λ f body e. cc; by_caller = λ f body e. cc }
  Reach-IsGenuine (later r st) = Step-IsGenuine st (Reach-IsTracked r) (Reach-IsGenuine r)

  -- A call that returns, whatever else was in flight, returns the body of a response that arrived
  -- with its own correlation id.
  pub answered_lem :
      {s : Requests}
      → Reach Responded s
      → (f : ℕ) (body : Bytes) → (s.callers f).phase ≡ ended (answered body)
      → Responded (s.callers f).correlation_id body
  answered_lem r f body e = (Reach-IsGenuine r).by_caller f body e
