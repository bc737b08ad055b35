-- ===== src/Router/Failure.antt =====
-- `activate` over a transport that may raise, as a broker may: what a raise in the middle of the
-- loops leaves behind.
use atasks.Prelude.{ℕ, String, ◌≡◌, refl, none, some, List, [], ◌∷◌, arith}
use atasks.Hop.{Kind, rpc, queue, broadcast}
use atasks.Errors.{Exec, Outcome, returned, raised, PyException, for_each, ◌>>◌}
use atasks.Transport.{Methods}
use atasks.Router.{
  Callback, Activated, nothing_activated, Router, activate_one, subscribe, unsubscribe, registered,
  start, activate, deactivate,
}

-- An action that leaves the server and what is recorded as activated as they were.
record Keeps {V T : Type 0} (m : Exec (Router V T) (Unit {0})) : Type 0 where
  at : (r : Router V T) → ((m r).1.server ≡ r.server) × ((m r).1.activated ≡ r.activated)

module _ {V T : Type 0} (ops : Methods Callback T) where
  Keeps-then : (m l : Exec (Router V T) (Unit {0})) → Keeps m → Keeps l → Keeps (m >> l)
  Keeps-then m l km kl = record { at = λ r. ground (arith, km.at r, kl.at (m r).1) }

  Keeps-for_each :
      (body : String → Exec (Router V T) (Unit {0}))
      → ((n : String) → Keeps (body n))
      → (ns : List String) → Keeps (for_each ns body)
  unfolding for_each
  Keeps-for_each body each [] = record { at = λ r. (refl, refl) }
  Keeps-for_each body each (n ∷ ns) = record {
    at = λ r. ground (arith, (each n).at r, (Keeps-for_each body each ns).at (body n r).1);
  }

  Keeps-activate_one :
      (kind : Kind) (name : String) → Keeps {V = V} {T = T} (activate_one ops kind name)
  unfolding activate_one
  Keeps-activate_one kind name = record { at = λ r. ground arith }

  Keeps-subscribe : (a : Activated) → Keeps {V = V} {T = T} (subscribe ops a)
  unfolding subscribe
  Keeps-subscribe a = Keeps-then _ _ (Keeps-for_each _ (Keeps-activate_one rpc) a.rpc_names) (
      Keeps-then _ _ (Keeps-for_each _ (Keeps-activate_one queue) a.queue_names)
        (Keeps-for_each _ (Keeps-activate_one broadcast) a.broadcast_names))

  -- The loops of `activate` on a router that has just got its server.
  abbrev pub loops : Router V T → ℕ → Outcome (Unit {0}) × Router V T
  loops r id = subscribe ops (registered ops r) (record r { server = some id })

  unsubscribe-nothing : (r : Router V T) → unsubscribe ops nothing_activated r ≡ (returned tt, r)
  unfolding unsubscribe for_each
  unsubscribe-nothing r = refl

  -- Where a transport raises in the middle of the loops, `activate` raises the same and leaves the
  -- transports as the loops left them, with the server set; a second `activate` of that server
  -- returns and does nothing, and `deactivate` returns and unsubscribes nothing of what the loops
  -- had subscribed.
  pub activate_raised :
      (r : Router V T) (id : ℕ) (e : PyException)
      → r.server ≡ none
      → r.activated ≡ nothing_activated
      → (loops r id).0 ≡ raised e
      → (activate ops (some id) r ≡ (raised e, (loops r id).1))
        × (activate ops (some id) (loops r id).1 ≡ (returned tt, (loops r id).1))
        × ((deactivate ops (loops r id).1).0 ≡ returned tt)
        × ((deactivate ops (loops r id).1).1.server ≡ none)
        × ((deactivate ops (loops r id).1).1.transports ≡ (loops r id).1.transports)
  unfolding activate start deactivate
  activate_raised r id e idle clear failed =
      let k = (Keeps-subscribe (registered ops r)).at (record r { server = some id }) in
      let u = unsubscribe-nothing (loops r id).1 in
      (
        ground (arith, failed),
        ground (arith, k.0),
        ground (arith, k.0, k.1, u),
        ground (arith, k.0, k.1, u),
        ground (arith, k.0, k.1, u),
      )
