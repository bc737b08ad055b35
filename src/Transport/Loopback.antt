-- ===== src/Transport/Loopback.antt =====
-- atasks/transport/base.py, `LoopbackTransport`: the three tables of callbacks, and the calls that
-- go back to a callback of the same process. `S` is the state of the process that the callbacks
-- change; `asyncio.wait_for`, a parameter, makes of a run of the callback the run that the caller
-- sees.
pub mod Subscriptions
use atasks.Prelude.{
  ℕ, String, Bool, true, false, Option, none, some, List, [], ◌∷◌, ◌++◌, if◌then◌else◌,
}
use atasks.Prelude.Dict
use atasks.Prelude.Dict.{Dict}
use atasks.Errors.{
  Exec, Outcome, returned, raised, exception, PyException, is_timeout_error, unknown_request_name,
  request_timeout, for_each, ◌>>=◌,
}
use atasks.Codec.{Bytes}

pub record Loopback (C : Type 0) : Type 0 where
  pub connected : Bool
  pub request_callbacks : Dict C
  pub event_callbacks : Dict C
  pub broadcast_callbacks : Dict (List C)

module _ {C : Type 0} where
  -- `LoopbackTransport()`
  unfoldable pub new : Loopback C
  new = record {
    connected = false;
    request_callbacks = [];
    event_callbacks = [];
    broadcast_callbacks = [];
  }

  unfoldable pub connect : Exec (Loopback C) (Unit {0})
  connect t = (returned tt, record t { connected = true })

  unfoldable pub disconnect : Exec (Loopback C) (Unit {0})
  disconnect t = (returned tt, record t { connected = false })

  unfoldable pub is_connected : Loopback C → Bool
  is_connected t = t.connected

  unfoldable pub register_request_callback : String → C → Exec (Loopback C) (Unit {0})
  register_request_callback name callback t =
      (returned tt, record t { request_callbacks = Dict.insert name callback t.request_callbacks })

  unfoldable pub unregister_request_callback : String → Exec (Loopback C) (Unit {0})
  unregister_request_callback name t =
      (returned tt, record t { request_callbacks = Dict.erase name t.request_callbacks })

  unfoldable pub register_event_callback : String → C → Exec (Loopback C) (Unit {0})
  register_event_callback name callback t =
      (returned tt, record t { event_callbacks = Dict.insert name callback t.event_callbacks })

  unfoldable pub unregister_event_callback : String → Exec (Loopback C) (Unit {0})
  unregister_event_callback name t =
      (returned tt, record t { event_callbacks = Dict.erase name t.event_callbacks })

  -- `self._broadcast_callbacks.get(name, ())`
  abbrev pub subscribers : Loopback C → String → List C
  subscribers t name = elim (Dict.lookup name t.broadcast_callbacks) [ none ↦ [] | some cs ↦ cs ]

  unfoldable pub register_broadcast_callback : String → C → Exec (Loopback C) (Unit {0})
  register_broadcast_callback name callback t = (
    returned tt,
    record t {
      broadcast_callbacks =
          Dict.insert name (subscribers t name ++ callback ∷ []) t.broadcast_callbacks;
    },
  )

  -- The name stays in the table, with no callback.
  unfoldable pub unregister_broadcast_callback : String → Exec (Loopback C) (Unit {0})
  unregister_broadcast_callback name t = elim (Dict.lookup name t.broadcast_callbacks) [
    | none ↦ (returned tt, t)
    | some _ ↦
        (returned tt, record t { broadcast_callbacks = Dict.insert name [] t.broadcast_callbacks })
  ]

-- How the process runs a callback on a content, and where it keeps the transport.
module _ {C S : Type 0} (call : C → Option Bytes → Exec S (Option Bytes)) (look : S → Loopback C)
    (wait_for : ℕ → Outcome (Option Bytes) × S → Outcome (Option Bytes) × S) where
  -- `except asyncio.TimeoutError: raise RequestTimeoutError(name)`
  abbrev handle_timeout : String → Outcome (Option Bytes) × S → Outcome (Option Bytes) × S
  handle_timeout name (returned v, s) = (returned v, s)
  handle_timeout name (raised e, s) =
      if is_timeout_error e.class
      then (raised (exception (request_timeout name)), s)
      else (raised e, s)

  abbrev timed : Option ℕ → Outcome (Option Bytes) × S → Outcome (Option Bytes) × S
  timed none run = run
  timed (some timeout) run = wait_for timeout run

  unfoldable pub send_request : String → Option Bytes → Option ℕ → Exec S (Option Bytes)
  send_request name content timeout s = elim (Dict.lookup name (look s).request_callbacks) [
    | none ↦ (raised (exception (unknown_request_name name)), s)
    | some callback ↦ handle_timeout name (timed timeout (call callback content s))
  ]

module _ {C S : Type 0} (call : C → Option Bytes → Exec S (Unit {0})) (look : S → Loopback C) where
  unfoldable pub publish_event : String → Option Bytes → Exec S (Unit {0})
  publish_event name content s = elim (Dict.lookup name (look s).event_callbacks) [
    | none ↦ (returned tt, s)
    | some callback ↦ call callback content s
  ]

  -- The list is copied before the first callback runs.
  unfoldable pub publish_broadcast : String → Option Bytes → Exec S (Unit {0})
  publish_broadcast name content s =
      for_each (subscribers (look s) name) (λ callback. call callback content) s
