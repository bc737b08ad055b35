-- ===== src/Transport/Amqp/Requests.antt =====
-- atasks/transport/backends/amqp.py, the requests in flight: `send_request`, cut where it awaits, the
-- callback of the response queue, and `_fail_awaiting_requests`. A future has a number, which is
-- also that of the one `send_request` that made it; what the broker, the clock and other tasks do
-- is chosen by a step.
pub mod Failing
pub mod Tracked
pub mod Tracking
pub mod Answers
pub mod Genuine
use atasks.Prelude.{
  ℕ, suc, ◌<◌, String, ◌≡◌, Bool, true, false, Option, none, some, List, [], ◌∷◌, nat_eq, not, ◌==◌,
  is_some, if◌then◌else◌,
}
use atasks.Prelude.Dict
use atasks.Prelude.Dict.{Dict}
use atasks.Codec.{Bytes}
use atasks.Errors.{
  PyException, exception, no_route, connection_lost, request_timeout, is_timeout_error,
}

-- `asyncio.Future`
pub data Future : Type 0 where
  pending : Future
  result : Bytes → Future
  failed : PyException → Future
  dropped : Future

abbrev pub is_done : Future → Bool
is_done pending = false
is_done _ = true

-- What came of a call of `send_request`.
pub data Ending : Type 0 where
  answered : Bytes → Ending
  raises : PyException → Ending
  was_cancelled : Ending

-- `idle` is a call that was not made yet.
pub data Phase : Type 0 where
  idle publishing waiting : Phase
  ended : Ending → Phase

abbrev pub is_active : Phase → Bool
is_active publishing = true
is_active waiting = true
is_active _ = false

pub record Caller : Type 0 where
  pub name : String
  pub correlation_id : String
  pub timeout : Option ℕ
  pub phase : Phase

-- What `publish` did: it raises a `PublishError`, a `CancelledError` or another exception.
pub data Publish : Type 0 where
  published publish_error cancelled_error publish_failed : Publish

-- `locked` is `self._lock`, as far as `send_request` holds it.
pub record Requests : Type 0 where
  pub awaiting_requests : Dict ℕ
  pub futures : ℕ → Future
  pub callers : ℕ → Caller
  pub next : ℕ
  pub locked : Bool

abbrev pub set_at {ℓ} : {A : Type ℓ} → (ℕ → A) → ℕ → A → ℕ → A
set_at g f v i = if nat_eq i f then v else g i

abbrev pub with_phase : Requests → ℕ → Phase → Requests
with_phase s f phase = record s {
  callers = set_at s.callers f (record (s.callers f) { phase = phase });
}

-- `self._awaiting_requests.pop(correlation_id, None)`
abbrev pub forget : String → Requests → Requests
forget id s = record s { awaiting_requests = Dict.erase id s.awaiting_requests }

abbrev pub finish_with : Requests → ℕ → Ending → Requests
finish_with s f ending = with_phase (forget (s.callers f).correlation_id s) f (ended ending)

-- Up to the call of `publish`.
unfoldable pub begin_request : String → Option ℕ → String → Requests → Requests
begin_request name timeout id s = record {
  awaiting_requests = Dict.insert id s.next s.awaiting_requests;
  futures = set_at s.futures s.next pending;
  callers =
      set_at s.callers s.next
        (record { name = name; correlation_id = id; timeout = timeout; phase = publishing });
  next = suc s.next;
  locked = true;
}

-- The loop over the futures that were taken out of the table.
unfoldable pub fail_all : Dict ℕ → (ℕ → Future) → ℕ → Future
fail_all [] futures = futures
fail_all ((id, f) ∷ rest) futures = fail_all rest (
    if is_done (futures f)
    then futures
    else set_at futures f (failed (exception (connection_lost id))))

unfoldable pub fail_awaiting_requests : Requests → Requests
fail_awaiting_requests s = elim s.awaiting_requests [
  | [] ↦ s
  | _ ↦ record s { awaiting_requests = []; futures = fail_all s.awaiting_requests s.futures }
]

-- The current task, if any, and the value of its `cancelling()`, if it has the method.
unfoldable pub task_was_actually_cancelled : Option (Option ℕ) → Bool
task_was_actually_cancelled none = false
task_was_actually_cancelled (some none) = true
task_was_actually_cancelled (some (some n)) = not (nat_eq n 0)

abbrev unlock : Requests → Requests
unlock s = record s { locked = false }

-- From what `publish` did to the end of `finally: self._lock.release()`.
unfoldable pub after_publish : ℕ → Publish → Option (Option ℕ) → Requests → Requests
after_publish f published task s = with_phase (unlock s) f waiting
after_publish f publish_error task s =
    finish_with (unlock s) f (raises (exception (no_route (s.callers f).name)))
after_publish f cancelled_error task s =
    if task_was_actually_cancelled task
    then finish_with (unlock s) f was_cancelled
    else with_phase (fail_awaiting_requests (unlock s)) f waiting
after_publish f publish_failed task s = with_phase (fail_awaiting_requests (unlock s)) f waiting

unfoldable pub on_response_message : String → Bytes → Requests → Requests
on_response_message id body s = elim (Dict.lookup id s.awaiting_requests) [
  | none ↦ s
  | some f ↦
      if is_done (s.futures f)
      then forget id s
      else record (forget id s) { futures = set_at s.futures f (result body) }
]

-- `except asyncio.TimeoutError`
abbrev pub failure_of : String → PyException → PyException
failure_of name e = if is_timeout_error e.class then exception (request_timeout name) else e

-- The await of the future goes on where the future is done.
unfoldable pub conclude : ℕ → Requests → Requests
conclude f s = elim (s.futures f) [
  | pending ↦ s
  | result body ↦ finish_with s f (answered body)
  | failed e ↦ finish_with s f (raises (failure_of (s.callers f).name e))
  | dropped ↦ finish_with s f was_cancelled
]

abbrev drop_future : ℕ → Requests → Requests
drop_future f s =
    if is_done (s.futures f) then s else record s { futures = set_at s.futures f dropped }

-- `asyncio.wait_for` cancels the future and raises `TimeoutError`; a future that is done by then has
-- won.
unfoldable pub expire : ℕ → Requests → Requests
expire f s =
    if is_done (s.futures f)
    then s
    else finish_with (drop_future f s) f (raises (exception (request_timeout (s.callers f).name)))

-- The task is cancelled while it awaits the future.
unfoldable pub cancel_waiting : ℕ → Requests → Requests
cancel_waiting f s = finish_with (drop_future f s) f was_cancelled

-- What came of `publish_event` or `publish_broadcast`.
pub data Sending : Type 0 where
  sent send_cancelled : Sending
  send_raises : PyException → Sending

abbrev lost_sending : String → Requests → Sending × Requests
lost_sending name s = (send_raises (exception (connection_lost name)), fail_awaiting_requests s)

-- `publish_event` and `publish_broadcast`, by what `publish` did. An unroutable message is dropped.
unfoldable pub publish_message :
    String → Publish → Option (Option ℕ) → Requests → Sending × Requests
publish_message name published task s = (sent, s)
publish_message name publish_error task s = (sent, s)
publish_message name cancelled_error task s =
    if task_was_actually_cancelled task then (send_cancelled, s) else lost_sending name s
publish_message name publish_failed task s = lost_sending name s

-- The steps of all tasks and callbacks, in any order. The lock keeps two publications apart, a
-- `uuid4` is one that was not made before, and the responses that arrive are `Responded`.
pub data Step (Responded : String → Bytes → Type 0) : Requests → Requests → Type 0 where
  begin :
      {s : Requests} (name : String) (timeout : Option ℕ) (id : String)
      → s.locked ≡ false
      → ((f : ℕ) → f < s.next → ((s.callers f).correlation_id == id) ≡ false)
      → Step Responded s (begin_request name timeout id s)
  publish :
      {s : Requests} (f : ℕ) (outcome : Publish) (task : Option (Option ℕ))
      → (s.callers f).phase ≡ publishing
      → Step Responded s (after_publish f outcome task s)
  respond :
      {s : Requests} (id : String) (body : Bytes)
      → Responded id body
      → Step Responded s (on_response_message id body s)
  message :
      {s : Requests} (name : String) (outcome : Publish) (task : Option (Option ℕ))
      → s.locked ≡ false
      → Step Responded s (publish_message name outcome task s).1
  lose : {s : Requests} → Step Responded s (fail_awaiting_requests s)
  resume : {s : Requests} (f : ℕ) → (s.callers f).phase ≡ waiting → Step Responded s (conclude f s)
  time_out :
      {s : Requests} (f : ℕ)
      → (s.callers f).phase ≡ waiting
      → is_some (s.callers f).timeout ≡ true
      → Step Responded s (expire f s)
  cancel :
      {s : Requests} (f : ℕ) → (s.callers f).phase ≡ waiting → Step Responded s (cancel_waiting f s)

-- A transport that was just made.
abbrev pub no_requests : Requests
no_requests = record {
  awaiting_requests = [];
  futures = λ _. pending;
  callers = λ _. record { name = ""; correlation_id = ""; timeout = none; phase = idle };
  next = 0;
  locked = false;
}

pub data Reach (Responded : String → Bytes → Type 0) : Requests → Type 0 where
  here : Reach Responded no_requests
  later : {s t : Requests} → Reach Responded s → Step Responded s t → Reach Responded t
