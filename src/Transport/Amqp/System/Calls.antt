-- ===== src/Transport/Amqp/System/Calls.antt =====
-- The requests of a process in a system: what the responses may be can be widened, and the names
-- and correlation ids of the calls stay.
use atasks.Prelude.{ℕ, String, ◌≡◌, refl, inl, inr, false, Option, arith}
use atasks.Codec.{Bytes}
use atasks.Transport.Amqp.Requests
use atasks.Transport.Amqp.Requests.{
  Publish, published, publish_error, cancelled_error, publish_failed, Requests, begin_request,
  fail_awaiting_requests, after_publish, on_response_message, conclude, expire, cancel_waiting,
  begin, publish, respond, message, lose, resume, time_out, cancel,
}
use atasks.Transport.Amqp.Requests.Failing.{fail_awaiting_requests_lem, publish_message-cases}
use atasks.Transport.Amqp.System.{Nothing}

module _ {P Q : String → Bytes → Type 0}
    (weaken : (id : String) (body : Bytes) → P id body → Q id body) where
  pub Step-mono : {s t : Requests} → Requests.Step P s t → Requests.Step Q s t
  Step-mono (begin name timeout id free fresh) = begin name timeout id free fresh
  Step-mono (publish f outcome task p) = publish f outcome task p
  Step-mono (respond id body r) = respond id body (weaken id body r)
  Step-mono (message name outcome task free) = message name outcome task free
  Step-mono lose = lose
  Step-mono (resume f p) = resume f p
  Step-mono (time_out f p timed) = time_out f p timed
  Step-mono (cancel f p) = cancel f p

  pub Reach-mono : {s : Requests} → Requests.Reach P s → Requests.Reach Q s
  Reach-mono Requests.here = Requests.here
  Reach-mono (Requests.later r st) = Requests.later (Reach-mono r) (Step-mono st)

-- No call is begun, and the call `f` keeps what it was made with.
abbrev pub SameCall : Requests → ℕ → Requests → Type 0
SameCall s f t =
    (t.next ≡ s.next)
    × ((t.callers f).correlation_id ≡ (s.callers f).correlation_id)
    × ((t.callers f).name ≡ (s.callers f).name)

pub fail_awaiting_requests-SameCall :
    (s : Requests) (f : ℕ) → SameCall s f (fail_awaiting_requests s)
fail_awaiting_requests-SameCall s f = rw (fail_awaiting_requests_lem s) (refl, refl, refl)

pub on_response_message-SameCall :
    (s : Requests) (id : String) (body : Bytes) (f : ℕ)
    → SameCall s f (on_response_message id body s)
unfolding on_response_message
on_response_message-SameCall s id body f = ground arith

after_publish-SameCall :
    (s : Requests) (f : ℕ) (outcome : Publish) (task : Option (Option ℕ)) (g : ℕ)
    → SameCall s g (after_publish f outcome task s)
unfolding after_publish
after_publish-SameCall s f published task g = ground arith
after_publish-SameCall s f publish_error task g = ground arith
after_publish-SameCall s f cancelled_error task g =
    ground (arith, fail_awaiting_requests_lem (record s { locked = false }))
after_publish-SameCall s f publish_failed task g =
    ground (arith, fail_awaiting_requests_lem (record s { locked = false }))

pub Step-SameCall :
    {s t : Requests} → Requests.Step Nothing s t → t.next ≡ s.next → (f : ℕ) → SameCall s f t
unfolding begin_request conclude expire cancel_waiting
Step-SameCall (begin {s} name timeout id free fresh) e f = absurd (omega (arith, e))
Step-SameCall (publish {s} g outcome task p) e f = after_publish-SameCall s g outcome task f
Step-SameCall (respond id body r) e f = absurd r
Step-SameCall (message {s} name outcome task free) e f =
    elim (publish_message-cases name outcome task s) [
      | inl l ↦ rw l (refl, refl, refl)
      | inr l ↦ rw l (fail_awaiting_requests-SameCall s f)
    ]
Step-SameCall (lose {s}) e f = fail_awaiting_requests-SameCall s f
Step-SameCall (resume {s} g p) e f = ground arith
Step-SameCall (time_out {s} g p timed) e f = ground arith
Step-SameCall (cancel {s} g p) e f = ground arith
