-- ===== src/Tests/RouterRuns.antt =====
-- Runs of the router over loopback transports, and over a transport that raises.
use atasks.Prelude.{
  ℕ, String, ◌≡◌, refl, true, false, ◌&&◌, none, some, List, [], ◌∷◌, nat_eq, suc, ◌-◌,
  if◌then◌else◌,
}
use atasks.Prelude.Lists.{contains}
use atasks.Prelude.Dict
use atasks.Hop.{Kind, rpc, queue, broadcast}
use atasks.Errors.{returned, raised, exception, connection_lost, for_each}
use atasks.Registry
use atasks.Transport.{Methods, IsSubscribing}
use atasks.Transport.Loopback
use atasks.Transport.Loopback.{Loopback}
use atasks.Transport.Loopback.Subscriptions.{methods, has_callback, methods-IsSubscribing}
use atasks.Router.{
  Callback, Router, new, registry, names, activate, deactivate, activated_names, nothing_activated,
  subscribe, activate_one, unsubscribe,
}
use atasks.Router.Sets.{view}
use atasks.Router.Activation.{activate_lem, deactivate_lem, left}
use atasks.Router.Synced.{
  Op, register_op, activate_op, deactivate_op, run, IsSynced, run-IsSynced, new-IsSynced,
}
use atasks.Router.Failure.{loops, activate_raised}

abbrev fresh : Router ℕ (Loopback Callback)
fresh = new "default" (λ _. Loopback.new)

fresh-IsSynced : IsSynced methods has_callback methods-IsSubscribing fresh
unfolding Loopback.new Dict.lookup
fresh-IsSynced =
    new-IsSynced methods has_callback methods-IsSubscribing "default" (λ _. Loopback.new) idle
  where
    idle : (i : ℕ) (k : Kind) (n : String) → has_callback (Loopback.new {C = Callback}) k n ≡ false
    idle i rpc n = refl
    idle i queue n = refl
    idle i broadcast n = refl

abbrev script : List (Op ℕ)
script =
    register_op rpc "a" 1 2
    ∷ register_op queue "q" 3 4
    ∷ activate_op (some 0)
    ∷ register_op rpc "late" 5 6
    ∷ activate_op (some 1)
    ∷ deactivate_op
    ∷ []

run-IsSynced_example :
    IsSynced methods has_callback methods-IsSubscribing
      (run methods has_callback methods-IsSubscribing script fresh)
run-IsSynced_example =
    run-IsSynced methods has_callback methods-IsSubscribing script fresh fresh-IsSynced

-- A router with one atask, before and after its activation.
abbrev one : Router ℕ (Loopback Callback)
one = record {
  namespace = "default";
  server = none;
  activated = nothing_activated;
  rpc_registry = record {
    name = "default";
    unite = false;
    registry = ("a", record { attributes = [] }) ∷ [];
  };
  queue_registry = record { name = "default"; unite = false; registry = [] };
  broadcast_registry = record { name = "default"; unite = false; registry = [] };
  transports = λ _. Loopback.new;
}

abbrev active : Router ℕ (Loopback Callback)
active = record one {
  server = some 0;
  activated = record { rpc_names = "a" ∷ []; queue_names = []; broadcast_names = [] };
}

activate_lem_example :
    ((activate methods (some 0) one).0 ≡ returned tt)
    × ((activate methods (some 0) one).1.server ≡ some 0)
    × (activated_names (activate methods (some 0) one).1.activated rpc ≡ names one rpc)
    × (registry (activate methods (some 0) one).1 rpc ≡ registry one rpc)
    × (view methods has_callback (activate methods (some 0) one).1 0 rpc "a" ≡ (
        if nat_eq 0 0 && contains "a" (names one rpc)
        then true
        else left methods has_callback methods-IsSubscribing one 0 rpc "a"))
activate_lem_example = activate_lem methods has_callback methods-IsSubscribing one 0 0 rpc "a" refl

deactivate_lem_example :
    ((deactivate methods active).0 ≡ returned tt)
    × ((deactivate methods active).1.server ≡ none)
    × ((deactivate methods active).1.activated ≡ nothing_activated)
    × (registry (deactivate methods active).1 rpc ≡ registry active rpc)
    × (view methods has_callback (deactivate methods active).1 0 rpc "a" ≡ (
        if nat_eq 0 0 && contains "a" (activated_names active.activated rpc)
        then false
        else view methods has_callback active 0 rpc "a"))
deactivate_lem_example =
    deactivate_lem methods has_callback methods-IsSubscribing active 0 0 rpc "a" refl

-- A transport that counts its subscriptions, and raises on a queue task.
abbrev failing : Methods Callback ℕ
failing = record {
  register = λ k _ _ t. elim k [
    | rpc ↦ (returned tt, suc t)
    | queue ↦ (raised (exception (connection_lost "declare")), t)
    | broadcast ↦ (returned tt, suc t)
  ];
  unregister = λ _ _ t. (returned tt, t - 1);
}

abbrev two : Router ℕ ℕ
two = record {
  namespace = "default";
  server = none;
  activated = nothing_activated;
  rpc_registry = record {
    name = "default";
    unite = false;
    registry = ("a", record { attributes = [] }) ∷ [];
  };
  queue_registry = record {
    name = "default";
    unite = false;
    registry = ("q", record { attributes = [] }) ∷ [];
  };
  broadcast_registry = record { name = "default"; unite = false; registry = [] };
  transports = λ _. 0;
}

-- The one subscription that was made is still there after `deactivate`.
leak : (deactivate failing (loops failing two 0).1).1.transports 0 ≡ 1
unfolding deactivate subscribe for_each activate_one Registry.names Dict.keys unsubscribe
leak = refl

activate_raised_example :
    (activate failing (some 0) two
      ≡ (raised (exception (connection_lost "declare")), (loops failing two 0).1))
    × (activate failing (some 0) (loops failing two 0).1 ≡ (returned tt, (loops failing two 0).1))
    × ((deactivate failing (loops failing two 0).1).0 ≡ returned tt)
    × ((deactivate failing (loops failing two 0).1).1.server ≡ none)
    × ((deactivate failing (loops failing two 0).1).1.transports
        ≡ (loops failing two 0).1.transports)
activate_raised_example =
    activate_raised failing two 0 (exception (connection_lost "declare")) refl refl
      (unfold subscribe for_each activate_one Registry.names Dict.keys in refl)

methods-IsSubscribing_example : IsSubscribing {C = Callback} methods has_callback
methods-IsSubscribing_example = methods-IsSubscribing {C = Callback}
