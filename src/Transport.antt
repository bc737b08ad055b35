-- ===== src/Transport.antt =====
-- atasks/transport/base.py, the part of `Transport` that a router drives: the three pairs of
-- protected methods that subscribe one name, and what they promise.
pub mod Loopback
pub mod Amqp
use atasks.Prelude.{ℕ, String, ◌≡◌, Bool, true, false, ◌&&◌, Option, ◌==◌, if◌then◌else◌}
use atasks.Hop.{Kind, rpc, queue, broadcast}
use atasks.Errors.{Exec, Outcome, returned}

abbrev pub kind_eq : Kind → Kind → Bool
kind_eq rpc rpc = true
kind_eq queue queue = true
kind_eq broadcast broadcast = true
kind_eq _ _ = false

-- A registration is known by its pattern and its name.
abbrev pub same : Kind → String → Kind → String → Bool
same k n k' n' = kind_eq k k' && n == n'

-- The methods `_register_request_callback`, `_register_event_callback` and
-- `_register_broadcast_callback` of a transport with the state `T`, one for each kind, and the
-- methods that undo them. A callback is of the type `C`.
pub record Methods (C T : Type 0) : Type 0 where
  pub register : Kind → String → C → Exec T (Unit {0})
  pub unregister : Kind → String → Exec T (Unit {0})

-- The promise: both return, and change the subscription of the one name alone.
pub record IsSubscribing {C T : Type 0} (ops : Methods C T) (subscribed : T → Kind → String → Bool)
    : Type 0 where
  pub register_returns :
      (k : Kind) (n : String) (c : C) (t : T) → (ops.register k n c t).0 ≡ returned tt
  pub subscribed-register :
      (k : Kind) (n : String) (c : C) (t : T) (k' : Kind) (n' : String)
      → subscribed (ops.register k n c t).1 k' n'
        ≡ (if same k n k' n' then true else subscribed t k' n')
  pub unregister_returns : (k : Kind) (n : String) (t : T) → (ops.unregister k n t).0 ≡ returned tt
  pub subscribed-unregister :
      (k : Kind) (n : String) (t : T) (k' : Kind) (n' : String)
      → subscribed (ops.unregister k n t).1 k' n'
        ≡ (if same k n k' n' then false else subscribed t k' n')
