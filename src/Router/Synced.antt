-- ===== src/Router/Synced.antt =====
-- The registries of a router and the subscriptions of its transports, through any operations on the
-- router.
use atasks.Prelude.{
  ℕ, String, ◌≡◌, refl, ap, ◌∙◌, Bool, false, ◌&&◌, not, Option, none, some, List, [], ◌∷◌, ◌++◌,
  arith, nat_eq, is_some, if◌then◌else◌, Option-cases, Bool-cases, inl, inr,
}
use atasks.Prelude.Lists.{contains}
use atasks.Hop.{Kind, rpc, queue, broadcast}
use atasks.Errors.{returned, raised, exception, late_registration, registering_twice}
use atasks.Registry.Laws.{register_strict, unite-register}
use atasks.Transport.{Methods, IsSubscribing, kind_eq}
use atasks.Router.{
  Callback, nothing_activated, activated_names, Router, new, registry, names, register, deactivate,
  activate, server_eq,
}
use atasks.Router.Activation.{
  deactivate_lem, activate_lem, deactivate-idle, activate-same, activate-none, left, names-eq,
}

module _ {V T : Type 0} where
  -- A registration is refused, and nothing changes, exactly while the router has a server.
  -- Otherwise it goes to the registry of its kind, and the other two keep their names.
  pub register_lem :
      (kind : Kind) (name : String) (coro options : V) (r : Router V T) (k : Kind)
      → (registry r kind).unite ≡ false
      → ((register kind name coro options r).0 ≡ (
          if is_some r.server
          then raised (exception (late_registration name))
          else if contains name (names r kind)
          then raised (exception (registering_twice (registry r kind).name name))
          else returned tt))
        × (names (register kind name coro options r).1 k ≡ (
            if not (is_some r.server) && kind_eq kind k && not (contains name (names r k))
            then names r k ++ name ∷ []
            else names r k))
        × ((register kind name coro options r).1.server ≡ r.server)
        × ((register kind name coro options r).1.activated ≡ r.activated)
        × ((register kind name coro options r).1.transports ≡ r.transports)
  unfolding register
  register_lem rpc name coro options r rpc strict =
      let s =
        register_strict (registry r rpc) name (("coro", coro) ∷ ("options", options) ∷ []) name
          strict in
      (ground (arith, s.0), ground (arith, s.1), ground arith, ground arith, ground arith)
  register_lem kind name coro options r k strict =
      let s =
        register_strict (registry r kind) name (("coro", coro) ∷ ("options", options) ∷ []) name
          strict in
      (ground (arith, s.0), ground (arith, s.1), ground arith, ground arith, ground arith)

nothing-names : (k : Kind) → activated_names nothing_activated k ≡ []
nothing-names rpc = refl
nothing-names queue = refl
nothing-names broadcast = refl

-- What can be done to a router.
pub data Op (V : Type 0) : Type 0 where
  register_op : Kind → String → V → V → Op V
  activate_op : Option ℕ → Op V
  deactivate_op : Op V

module _ {V T : Type 0} (ops : Methods Callback T) (subscribed : T → Kind → String → Bool)
    (law : IsSubscribing ops subscribed) where
  abbrev pub step : Op V → Router V T → Router V T
  step (register_op kind name coro options) r = (register kind name coro options r).1
  step (activate_op server) r = (activate ops server r).1
  step deactivate_op r = (deactivate ops r).1

  abbrev pub run : List (Op V) → Router V T → Router V T
  run [] r = r
  run (op ∷ rest) r = run rest (step op r)

  -- What is recorded as activated is what the registries hold, or nothing where there is no
  -- server, and the transports are subscribed to that and to nothing else.
  pub record IsSynced (r : Router V T) : Type 0 where
    pub strict : (k : Kind) → (registry r k).unite ≡ false
    pub recorded :
        (k : Kind)
        → activated_names r.activated k ≡ elim r.server [ none ↦ [] | some _ ↦ names r k ]
    pub served :
        (i : ℕ) (k : Kind) (n : String)
        → subscribed (r.transports i) k n
          ≡ elim r.server [ none ↦ false | some id ↦ nat_eq i id && contains n (names r k) ]

  IsSynced-deactivate : (r : Router V T) → IsSynced r → IsSynced (deactivate ops r).1
  IsSynced-deactivate r h = elim (Option-cases r.server) [
    | inl e ↦ rw (deactivate-idle ops subscribed law r e) h
    | inr (id, e) ↦
        let l = λ (i : ℕ) (k : Kind) (n : String). deactivate_lem ops subscribed law r id i k n e in
        record {
          strict = λ k. ap (λ m. m.unite) (l 0 k "").3 ∙ h.strict k;
          recorded = λ k. ground (arith, (l 0 k "").1, (l 0 k "").2, nothing-names k);
          served = λ i k n. ground (arith, l i k n, h.served i k n, h.recorded k, e);
        }
  ]

  left-false :
      (r : Router V T) (i : ℕ) (k : Kind) (n : String)
      → IsSynced r
      → left ops subscribed law r i k n ≡ false
  left-false r i k n h = ground (arith, h.served i k n, h.recorded k)

  IsSynced-activate :
      (server : Option ℕ) (r : Router V T) → IsSynced r → IsSynced (activate ops server r).1
  IsSynced-activate none r h = rw (activate-none ops subscribed law r) (IsSynced-deactivate r h)
  IsSynced-activate (some id) r h = elim (Bool-cases (server_eq r.server (some id))) [
    | inl same ↦ rw (activate-same ops subscribed law r (some id) same) h
    | inr other ↦
        let l =
          λ (i : ℕ) (k : Kind) (n : String). activate_lem ops subscribed law r id i k n other in
        let same_names =
          λ (k : Kind). names-eq ops subscribed law r (activate ops (some id) r).1 k (l 0 k "").3 in
        record {
          strict = λ k. ap (λ m. m.unite) (l 0 k "").3 ∙ h.strict k;
          recorded = λ k. ground (arith, (l 0 k "").1, (l 0 k "").2, same_names k);
          served = λ i k n. ground (arith, l i k n, left-false r i k n h, same_names k);
        }
  ]

  register-late :
      (kind : Kind) (name : String) (coro options : V) (r : Router V T) (id : ℕ)
      → r.server ≡ some id
      → (register kind name coro options r).1 ≡ r
  unfolding register
  register-late kind name coro options r id e = ground arith

  strict-register :
      (kind : Kind) (name : String) (coro options : V) (r : Router V T) (k : Kind)
      → (registry (register kind name coro options r).1 k).unite ≡ (registry r k).unite
  unfolding register
  strict-register rpc name coro options r rpc =
      ground
        (arith, unite-register name (("coro", coro) ∷ ("options", options) ∷ []) r.rpc_registry)
  strict-register kind name coro options r k =
      ground
        (arith, unite-register name (("coro", coro) ∷ ("options", options) ∷ []) (registry r kind))

  IsSynced-register :
      (kind : Kind) (name : String) (coro options : V) (r : Router V T)
      → IsSynced r
      → IsSynced (register kind name coro options r).1
  IsSynced-register kind name coro options r h = elim (Option-cases r.server) [
    | inl e ↦
        let l = λ (k : Kind). register_lem kind name coro options r k (h.strict kind) in
        record {
          strict = λ k. strict-register kind name coro options r k ∙ h.strict k;
          recorded = λ k. ground (arith, (l k).2, (l k).3, h.recorded k);
          served = λ i k n. ground (arith, (l k).2, (l k).4, h.served i k n);
        }
    | inr (id, e) ↦ rw (register-late kind name coro options r id e) h
  ]

  step-IsSynced : (op : Op V) (r : Router V T) → IsSynced r → IsSynced (step op r)
  step-IsSynced (register_op kind name coro options) r h =
      IsSynced-register kind name coro options r h
  step-IsSynced (activate_op server) r h = IsSynced-activate server r h
  step-IsSynced deactivate_op r h = IsSynced-deactivate r h

  -- Whatever registrations, activations and deactivations are made, refused ones included, a router
  -- that starts with its transports not subscribed stays in step: its server is subscribed to
  -- exactly the names that its registries hold, no other transport is subscribed to anything, and
  -- what it will unsubscribe is what it has subscribed.
  pub run-IsSynced : (rest : List (Op V)) (r : Router V T) → IsSynced r → IsSynced (run rest r)
  run-IsSynced [] r h = h
  run-IsSynced (op ∷ rest) r h = run-IsSynced rest (step op r) (step-IsSynced op r h)

  pub new-IsSynced :
      (namespace : String) (transports : ℕ → T)
      → ((i : ℕ) (k : Kind) (n : String) → subscribed (transports i) k n ≡ false)
      → IsSynced (new namespace transports)
  unfolding new
  new-IsSynced namespace transports idle = record {
    strict = λ k. strict_new k;
    recorded = nothing-names;
    served = idle;
  }
    where
      strict_new : (k : Kind) → (registry (new {V = V} namespace transports) k).unite ≡ false
      strict_new rpc = refl
      strict_new queue = refl
      strict_new broadcast = refl
