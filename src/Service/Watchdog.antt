-- ===== src/Service/Watchdog.antt =====
-- atasks/commands/service.py, `_SelfWatchdog`: the thread that probes the event loop, cut where
-- another thread may come between, and what the other threads do. The end of a period and of a
-- timeout are chosen by the order of the actions.
pub mod Laws
use atasks.Prelude.{Bool, true, false, not, Option, none, some, List, [], ◌∷◌, if◌then◌else◌}

-- Where the thread is: in `self._stop.wait(self.period)`, before the probe, after the loop refused
-- it, in `acknowledgement.wait(self.timeout)`, after that timed out, and at its ends.
pub data Thread : Type 0 where
  sleeping waking refused probing missed left aborting : Thread

-- `acknowledgement` is that of the last probe, if any, and whether it is set.
pub record Watchdog : Type 0 where
  pub stopped : Bool
  pub acknowledgement : Option Bool
  pub thread : Thread

-- The thread goes on; the flag tells whether the loop is closed, which is asked at a probe. The event
-- loop runs the callback of the last probe. `stop` is called.
pub data Action : Type 0 where
  advance : Bool → Action
  acknowledge stop : Action

-- `__init__` and `start`.
abbrev pub started : Watchdog
started = record { stopped = false; acknowledgement = none; thread = sleeping }

abbrev pub set_event : Option Bool → Option Bool
set_event none = none
set_event (some _) = some true

abbrev pub is_set : Option Bool → Bool
is_set none = false
is_set (some b) = b

-- `_run`, from one wait or test to the next.
unfoldable pub go_on : Bool → Watchdog → Watchdog
go_on closed w = elim w.thread [
  | sleeping ↦ record w { thread = if w.stopped then left else waking }
  | waking ↦ record w { acknowledgement = some false; thread = if closed then refused else probing }
  | refused ↦ record w { thread = if w.stopped then left else aborting }
  | probing ↦ record w { thread = if is_set w.acknowledgement then sleeping else missed }
  | missed ↦ record w { thread = if w.stopped then sleeping else aborting }
  | left ↦ w
  | aborting ↦ w
]

unfoldable pub act : Action → Watchdog → Watchdog
act (advance closed) w = go_on closed w
act acknowledge w = record w { acknowledgement = set_event w.acknowledgement }
act stop w = record w { stopped = true; acknowledgement = set_event w.acknowledgement }

unfoldable pub run : List Action → Watchdog → Watchdog
run [] w = w
run (action ∷ actions) w = run actions (act action w)
