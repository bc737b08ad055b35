-- ===== src/Router/Activation.antt =====
-- What `activate` and `deactivate` do to the subscriptions, over any transport that keeps the
-- promise of `IsSubscribing`.
use atasks.Prelude.{
  ℕ, String, ◌≡◌, refl, ap, ◌∙◌, Bool, true, false, ◌&&◌, Option, none, some, arith, nat_eq,
  if◌then◌else◌, Option-cases, inl, inr,
}
use atasks.Prelude.Lists.{contains}
use atasks.Hop.{Kind, rpc, queue, broadcast}
use atasks.Errors.{Outcome, returned}
use atasks.Transport.{Methods, IsSubscribing}
use atasks.Router.{
  Callback, nothing_activated, activated_names, Router, registry, names, unsubscribe, deactivate,
  subscribe, registered, activate, server_eq, start,
}
use atasks.Router.Sets.{Sets, view, subscribe-Sets, unsubscribe-Sets}

module _ {V T : Type 0} (ops : Methods Callback T) (subscribed : T → Kind → String → Bool)
    (law : IsSubscribing ops subscribed) where
  deactivate-eq :
      (r : Router V T) (id : ℕ)
      → r.server ≡ some id
      → deactivate ops r ≡ (
        returned tt,
        record (unsubscribe ops r.activated r).1 { activated = nothing_activated; server = none },
      )
  unfolding deactivate
  deactivate-eq r id e =
      ground (arith, (unsubscribe-Sets ops subscribed law id r.activated r e).returns)

  pub deactivate-idle : (r : Router V T) → r.server ≡ none → deactivate ops r ≡ (returned tt, r)
  unfolding deactivate
  deactivate-idle r e = ground arith

  registry_same :
      (r r' : Router V T) (k : Kind)
      → (r'.rpc_registry ≡ r.rpc_registry)
        × (r'.queue_registry ≡ r.queue_registry)
        × (r'.broadcast_registry ≡ r.broadcast_registry)
      → registry r' k ≡ registry r k
  registry_same r r' rpc s = s.0
  registry_same r r' queue s = s.1
  registry_same r r' broadcast s = s.2

  -- `deactivate` returns and leaves a router that is not active, with its registries; exactly
  -- the names that were recorded as activated are unsubscribed from the server, and nothing else
  -- changes, on that transport or any other.
  pub deactivate_lem :
      (r : Router V T) (id : ℕ) (i : ℕ) (k : Kind) (n : String)
      → r.server ≡ some id
      → ((deactivate ops r).0 ≡ returned tt)
        × ((deactivate ops r).1.server ≡ none)
        × ((deactivate ops r).1.activated ≡ nothing_activated)
        × (registry (deactivate ops r).1 k ≡ registry r k)
        × (view ops subscribed (deactivate ops r).1 i k n ≡ (
            if nat_eq i id && contains n (activated_names r.activated k)
            then false
            else view ops subscribed r i k n))
  deactivate_lem r id i k n e =
      let s = unsubscribe-Sets ops subscribed law id r.activated r e in
      rw (deactivate-eq r id e) (
        refl,
        refl,
        refl,
        registry_same r
            (record (unsubscribe ops r.activated r).1 {
              activated = nothing_activated;
              server = none;
            })
            k (s.kept.3, s.kept.4, s.kept.5),
        s.turned i k n,
      )

  activated_names-registered :
      (r : Router V T) (k : Kind) → activated_names (registered ops r) k ≡ names r k
  activated_names-registered r rpc = refl
  activated_names-registered r queue = refl
  activated_names-registered r broadcast = refl

  module _ (r : Router V T) (id : ℕ) where
    abbrev begun : Outcome (Unit {0}) × Router V T
    begun = start ops (some id) r

    subscription-Sets :
        Sets ops subscribed true id
          (λ k n. contains n (activated_names (registered ops r) k))
          (record r { server = some id })
          (subscribe ops (registered ops r) (record r { server = some id }))
    subscription-Sets =
        subscribe-Sets ops subscribed law id (registered ops r) (record r { server = some id }) refl

    start-eq : begun ≡ (
      returned tt,
      record (subscribe ops (registered ops r) (record r { server = some id })).1 {
        activated = registered ops r;
      },
    )
    unfolding start
    start-eq = ground (arith, subscription-Sets.returns)

    start_lem :
        (i : ℕ) (k : Kind) (n : String)
        → (begun.0 ≡ returned tt)
          × (begun.1.server ≡ some id)
          × (begun.1.activated ≡ registered ops r)
          × (registry begun.1 k ≡ registry r k)
          × (view ops subscribed begun.1 i k n ≡ (
              if nat_eq i id && contains n (names r k) then true else view ops subscribed r i k n))
    start_lem i k n =
        let s = subscription-Sets in
        rw start-eq (
          refl,
          s.kept.1,
          refl,
          registry_same r
              (record (subscribe ops (registered ops r) (record r { server = some id })).1 {
                activated = registered ops r;
              })
              k (s.kept.3, s.kept.4, s.kept.5),
          rw (← activated_names-registered r k) (s.turned i k n),
        )

  -- What the transports are subscribed to once the server that was active, if any, is left.
  abbrev pub left : Router V T → ℕ → Kind → String → Bool
  left r i k n = elim r.server [
    | none ↦ view ops subscribed r i k n
    | some old ↦
        if nat_eq i old && contains n (activated_names r.activated k)
        then false
        else view ops subscribed r i k n
  ]

  activate-idle :
      (r : Router V T) (id : ℕ) → r.server ≡ none → activate ops (some id) r ≡ begun r id
  unfolding activate
  activate-idle r id e = ground arith

  activate-switch :
      (r : Router V T) (id old : ℕ)
      → r.server ≡ some old
      → server_eq r.server (some id) ≡ false
      → activate ops (some id) r ≡ begun (deactivate ops r).1 id
  unfolding activate
  activate-switch r id old e other = ground (arith, other, (deactivate_lem r old 0 rpc "" e).0)

  pub names-eq :
      (r r' : Router V T) (k : Kind) → registry r' k ≡ registry r k → names r' k ≡ names r k
  names-eq r r' k e = rw e

  pub activate-same :
      (r : Router V T) (server : Option ℕ)
      → server_eq r.server server ≡ true
      → activate ops server r ≡ (returned tt, r)
  unfolding activate
  activate-same r server same = ground arith

  -- `activate(None)` is `deactivate`.
  pub activate-none : (r : Router V T) → activate ops none r ≡ deactivate ops r
  unfolding activate start
  activate-none r = elim (Option-cases r.server) [
    | inl e ↦ ground (arith, deactivate-idle r e)
    | inr (id, e) ↦ ground (arith, deactivate-eq r id e)
  ]

  left-none :
      (r : Router V T) (i : ℕ) (k : Kind) (n : String)
      → r.server ≡ none
      → left r i k n ≡ view ops subscribed r i k n
  left-none r i k n e = ground arith

  left-some :
      (r : Router V T) (old i : ℕ) (k : Kind) (n : String)
      → r.server ≡ some old
      → left r i k n ≡ (
          if nat_eq i old && contains n (activated_names r.activated k)
          then false
          else view ops subscribed r i k n)
  left-some r old i k n e = ground arith

  -- `activate` of another server than the current one returns: the router has the new server, it
  -- records the names of its registries as activated and keeps the registries; the new server is
  -- subscribed to exactly those names besides what it was subscribed to, the old one has lost what
  -- was recorded for it, and no other subscription changes.
  pub activate_lem :
      (r : Router V T) (id : ℕ) (i : ℕ) (k : Kind) (n : String)
      → server_eq r.server (some id) ≡ false
      → ((activate ops (some id) r).0 ≡ returned tt)
        × ((activate ops (some id) r).1.server ≡ some id)
        × (activated_names (activate ops (some id) r).1.activated k ≡ names r k)
        × (registry (activate ops (some id) r).1 k ≡ registry r k)
        × (view ops subscribed (activate ops (some id) r).1 i k n
            ≡ (if nat_eq i id && contains n (names r k) then true else left r i k n))
  activate_lem r id i k n other = elim (Option-cases r.server) [
    | inl e ↦
        let s = start_lem r id i k n in
        rw (activate-idle r id e) (
          s.0,
          s.1,
          ap (λ a. activated_names a k) s.2 ∙ activated_names-registered r k,
          s.3,
          s.4 ∙ ground (arith, left-none r i k n e),
        )
    | inr (old, e) ↦
        let d = (deactivate ops r).1 in
        let s = start_lem d id i k n in
        let l = deactivate_lem r old i k n e in
        rw (activate-switch r id old e other) (
          s.0,
          s.1,
          ap (λ a. activated_names a k) s.2 ∙ activated_names-registered d k ∙ names-eq r d k l.3,
          s.3 ∙ l.3,
          s.4 ∙ ground (arith, names-eq r d k l.3, l.4, left-some r old i k n e),
        )
  ]
