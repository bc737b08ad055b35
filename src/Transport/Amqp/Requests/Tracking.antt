-- ===== src/Transport/Amqp/Requests/Tracking.antt =====
-- The table of the awaited requests and the callers, through any steps.
use atasks.Prelude.{ℕ, String, ◌≡◌, refl, inl, inr, true, false, Option, arith, Bool-cases}
use atasks.Prelude.Dict.{lookup-nil}
use atasks.Codec.{Bytes}
use atasks.Transport.Amqp.Requests.{
  Future, pending, result, failed, dropped, is_done, waiting, is_active, answered, raises,
  was_cancelled, failure_of, Publish, published, publish_error, cancelled_error, publish_failed,
  Requests, fail_awaiting_requests, task_was_actually_cancelled, after_publish, conclude, expire,
  cancel_waiting, Step, begin, publish, respond, lose, resume, time_out, cancel, message, Reach,
  here, later, with_phase, finish_with,
}
use atasks.Transport.Amqp.Requests.Failing.{
  fail_all-is_done, fail_all-lookup, fail_awaiting_requests_lem, publish_message-cases,
}
use atasks.Transport.Amqp.Requests.Tracked.{
  IsTracked, begin_request-IsTracked, finish_with-IsTracked, with_phase-IsTracked,
  finish_dropped-IsTracked, on_response_message-IsTracked,
}

fail_awaiting_requests-IsTracked :
    (s : Requests) → IsTracked s → IsTracked (fail_awaiting_requests s)
fail_awaiting_requests-IsTracked s h = rw (fail_awaiting_requests_lem s) record {
  awaited = λ j g l. ground (arith, l, lookup-nil {V = ℕ} j);
  tracked = λ g a p. ground (
    arith,
    a,
    p,
    h.tracked g,
    fail_all-lookup s.awaiting_requests s.futures (s.callers g).correlation_id g,
    fail_all-is_done s.awaiting_requests s.futures g,
    Bool-cases (is_done (s.futures g)),
  );
  unused = h.unused;
  single = h.single;
}

after_publish-IsTracked :
    (s : Requests) (f : ℕ) (outcome : Publish) (task : Option (Option ℕ))
    → IsTracked s
    → is_active (s.callers f).phase ≡ true
    → IsTracked (after_publish f outcome task s)
unfolding after_publish
after_publish-IsTracked s f outcome task h a = go outcome
  where
    free : IsTracked (record s { locked = false })
    free = record { awaited = h.awaited; tracked = h.tracked; unused = h.unused; single = h.single }

    lost : IsTracked (with_phase (fail_awaiting_requests (record s { locked = false })) f waiting)
    lost =
        with_phase-IsTracked (fail_awaiting_requests (record s { locked = false }))
          (fail_awaiting_requests-IsTracked _ free) f
          (rw (fail_awaiting_requests_lem (record s { locked = false })) a)

    go : (outcome : Publish) → IsTracked (after_publish f outcome task s)
    go published = with_phase-IsTracked (record s { locked = false }) free f a
    go publish_error = finish_with-IsTracked (record s { locked = false }) free f _ a
    go cancelled_error = elim (Bool-cases (task_was_actually_cancelled task)) [
      | inl e ↦ rw e (finish_with-IsTracked (record s { locked = false }) free f _ a)
      | inr e ↦ rw e lost
    ]
    go publish_failed = lost

module _ (s : Requests) (h : IsTracked s) (f : ℕ) (a : is_active (s.callers f).phase ≡ true) where
  conclude-IsTracked : IsTracked (conclude f s)
  unfolding conclude
  conclude-IsTracked = go (s.futures f)
    where
      go :
          (v : Future)
          → IsTracked (elim v [
            | pending ↦ s
            | result body ↦ finish_with s f (answered body)
            | failed e ↦ finish_with s f (raises (failure_of (s.callers f).name e))
            | dropped ↦ finish_with s f was_cancelled
          ])
      go pending = h
      go (result body) = finish_with-IsTracked s h f _ a
      go (failed e) = finish_with-IsTracked s h f _ a
      go dropped = finish_with-IsTracked s h f _ a

  expire-IsTracked : IsTracked (expire f s)
  unfolding expire
  expire-IsTracked = elim (Bool-cases (is_done (s.futures f))) [
    | inl e ↦ rw e h
    | inr e ↦ rw e (finish_dropped-IsTracked s h f _ a)
  ]

  cancel_waiting-IsTracked : IsTracked (cancel_waiting f s)
  unfolding cancel_waiting
  cancel_waiting-IsTracked = elim (Bool-cases (is_done (s.futures f))) [
    | inl e ↦ rw e (finish_with-IsTracked s h f _ a)
    | inr e ↦ rw e (finish_dropped-IsTracked s h f _ a)
  ]

module _ {Responded : String → Bytes → Type 0} where
  Step-IsTracked : {s t : Requests} → Step Responded s t → IsTracked s → IsTracked t
  Step-IsTracked (begin {s} name timeout id free fresh) h =
      begin_request-IsTracked s h name timeout id fresh
  Step-IsTracked (publish {s} f outcome task p) h =
      after_publish-IsTracked s f outcome task h (rw p refl)
  Step-IsTracked (respond {s} id body r) h = on_response_message-IsTracked s h id body
  Step-IsTracked (message {s} name outcome task free) h =
      elim (publish_message-cases name outcome task s) [
        | inl e ↦ rw e h
        | inr e ↦ rw e (fail_awaiting_requests-IsTracked s h)
      ]
  Step-IsTracked (lose {s}) h = fail_awaiting_requests-IsTracked s h
  Step-IsTracked (resume {s} f p) h = conclude-IsTracked s h f (rw p refl)
  Step-IsTracked (time_out {s} f p timed) h = expire-IsTracked s h f (rw p refl)
  Step-IsTracked (cancel {s} f p) h = cancel_waiting-IsTracked s h f (rw p refl)

  -- Through any requests, responses, lost connections, timeouts and cancellations, in any order,
  -- the table holds exactly the calls that have not ended and whose future is pending, each under
  -- its own correlation id: no answer finds a call that has ended, and no entry is left behind.
  pub Reach-IsTracked : {s : Requests} → Reach Responded s → IsTracked s
  Reach-IsTracked here = record {
    awaited = λ id f e. ground (arith, e, lookup-nil {V = ℕ} id);
    tracked = λ f a p. cc;
    unused = λ f l. refl;
    single = λ f g l m e. absurd (omega arith);
  }
  Reach-IsTracked (later r st) = Step-IsTracked st (Reach-IsTracked r)
