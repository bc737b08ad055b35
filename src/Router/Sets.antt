-- ===== src/Router/Sets.antt =====
-- The loops of `activate` and `deactivate`, as actions that turn a selection of the subscriptions
-- on or off, over any transport that keeps the promise of `IsSubscribing`.
use atasks.Prelude.{
  ℕ, String, ◌≡◌, refl, ◌∙◌, Bool, true, false, ◌&&◌, ◌||◌, some, List, [], ◌∷◌, arith, nat_eq,
  if◌then◌else◌,
}
use atasks.Prelude.Lists.{contains}
use atasks.Hop.{Kind, rpc, queue, broadcast}
use atasks.Errors.{Exec, Outcome, returned, for_each, ◌>>◌}
use atasks.Transport.{Methods, IsSubscribing, kind_eq, same}
use atasks.Router.{
  Callback, Activated, activated_names, Router, activate_one, deactivate_one, unsubscribe,
  subscribe,
}

-- The selections of names that an action may be about.
abbrev nothing : Kind → String → Bool
nothing k n = false

abbrev either : (Kind → String → Bool) → (Kind → String → Bool) → Kind → String → Bool
either f g k n = f k n || g k n

abbrev among : Kind → List String → Kind → String → Bool
among kind ns k n = kind_eq kind k && contains n ns

module _ {V T : Type 0} where
  -- The two routers differ in the states of the transports alone.
  abbrev pub SameRouter : Router V T → Router V T → Type 0
  SameRouter r r' =
      (r'.namespace ≡ r.namespace)
      × (r'.server ≡ r.server)
      × (r'.activated ≡ r.activated)
      × (r'.rpc_registry ≡ r.rpc_registry)
      × (r'.queue_registry ≡ r.queue_registry)
      × (r'.broadcast_registry ≡ r.broadcast_registry)

module _ {V T : Type 0} (ops : Methods Callback T) (subscribed : T → Kind → String → Bool) where
  -- Whether a transport of the process is subscribed to a name.
  abbrev pub view : Router V T → ℕ → Kind → String → Bool
  view r i = subscribed (r.transports i)

  -- An action on the server `id` that returns, keeps the router, and turns the subscriptions that
  -- `hit` selects to `on`.
  pub record Sets (on : Bool) (id : ℕ) (hit : Kind → String → Bool) (r : Router V T)
      (out : Outcome (Unit {0}) × Router V T) : Type 0 where
    pub returns : out.0 ≡ returned tt
    pub kept : SameRouter r out.1
    pub turned :
        (i : ℕ) (k : Kind) (n : String)
        → view out.1 i k n ≡ (if nat_eq i id && hit k n then on else view r i k n)

  module _ (on : Bool) (id : ℕ) where
    Sets-nothing : (r : Router V T) → Sets on id nothing r (returned tt, r)
    Sets-nothing r = record {
      returns = refl;
      kept = (refl, refl, refl, refl, refl, refl);
      turned = λ i k n. ground arith;
    }

    Sets-then :
        (f g : Kind → String → Bool) (m l : Exec (Router V T) (Unit {0})) (r : Router V T)
        → Sets on id f r (m r)
        → Sets on id g (m r).1 (l (m r).1)
        → Sets on id (either f g) r ((m >> l) r)
    Sets-then f g m l r sm sl = record {
      returns = rw sm.returns sl.returns;
      kept = rw sm.returns (ground (arith, sm.kept, sl.kept));
      turned = λ i k n. rw sm.returns (ground (arith, sl.turned i k n, sm.turned i k n));
    }

    Sets-eq :
        (f g : Kind → String → Bool) (r : Router V T) (out : Outcome (Unit {0}) × Router V T)
        → ((k : Kind) (n : String) → f k n ≡ g k n)
        → Sets on id f r out
        → Sets on id g r out
    Sets-eq f g r out e s = record {
      returns = s.returns;
      kept = s.kept;
      turned = λ i k n. rw (← e k n) (s.turned i k n);
    }

    -- A loop over names, of a body that turns the subscription of each.
    Sets-for_each :
        (kind : Kind) (body : String → Exec (Router V T) (Unit {0}))
        → ((n : String) (r : Router V T)
            → r.server ≡ some id
            → Sets on id (same kind n) r (body n r))
        → (ns : List String) (r : Router V T) → r.server ≡ some id
        → Sets on id (among kind ns) r (for_each ns body r)
    unfolding for_each
    Sets-for_each kind body each [] r e =
        Sets-eq nothing (among kind []) r _ (λ k n. ground arith) (Sets-nothing r)
    Sets-for_each kind body each (n ∷ ns) r e =
        let first = each n r e in
        Sets-eq (either (same kind n) (among kind ns)) (among kind (n ∷ ns)) r _
          (λ k j. ground arith)
          (Sets-then (same kind n) (among kind ns) (body n) (for_each ns body) r first
            (Sets-for_each kind body each ns (body n r).1 (first.kept.1 ∙ e)))

  module _ (law : IsSubscribing ops subscribed) where
    activate_one-Sets :
        (id : ℕ) (kind : Kind) (name : String) (r : Router V T)
        → r.server ≡ some id
        → Sets true id (same kind name) r (activate_one ops kind name r)
    unfolding activate_one
    activate_one-Sets id kind name r e =
        rw (e, activate_one)
          (record {
            returns = law.register_returns kind name _ _;
            kept = (refl, refl, refl, refl, refl, refl);
            turned = λ i k n. ground (
              arith,
              law.subscribed-register kind name (record { kind = kind; name = name })
                  (r.transports id) k n,
            );
          })

    deactivate_one-Sets :
        (id : ℕ) (kind : Kind) (name : String) (r : Router V T)
        → r.server ≡ some id
        → Sets false id (same kind name) r (deactivate_one ops kind name r)
    unfolding deactivate_one
    deactivate_one-Sets id kind name r e =
        rw (e, deactivate_one)
          (record {
            returns = law.unregister_returns kind name _;
            kept = (refl, refl, refl, refl, refl, refl);
            turned =
                λ i k n. ground (arith, law.subscribed-unregister kind name (r.transports id) k n);
          })

    -- The three loops, in the order of the code.
    module _ (on : Bool) (id : ℕ) (body : Kind → String → Exec (Router V T) (Unit {0}))
        (each : (kind : Kind) (n : String) (r : Router V T)
          → r.server ≡ some id
          → Sets on id (same kind n) r (body kind n r)) where
      three-Sets :
          (a : Activated) (r : Router V T)
          → r.server ≡ some id
          → Sets on id
              (λ k n. contains n (activated_names a k))
              r
              ((for_each a.rpc_names (body rpc)
                  >> (for_each a.queue_names (body queue)
                      >> for_each a.broadcast_names (body broadcast)))
                r)
      three-Sets a r e =
          let run = λ (kind : Kind). for_each (activated_names a kind) (body kind) in
          let r₁ = (run rpc r).1 in
          let r₂ = (run queue r₁).1 in
          let loop = λ (kind : Kind) (r' : Router V T) (e' : r'.server ≡ some id).
            Sets-for_each on id kind (body kind) (each kind) (activated_names a kind) r' e' in
          let s₁ = loop rpc r e in
          let s₂ = loop queue r₁ (s₁.kept.1 ∙ e) in
          let s₃ = loop broadcast r₂ (s₂.kept.1 ∙ s₁.kept.1 ∙ e) in
          let f = λ (kind : Kind). among kind (activated_names a kind) in
          Sets-eq on id (either (f rpc) (either (f queue) (f broadcast)))
            (λ k n. contains n (activated_names a k)) r
            ((run rpc >> (run queue >> run broadcast)) r) among_kinds
            (Sets-then on id (f rpc) (either (f queue) (f broadcast)) (run rpc)
              (run queue >> run broadcast) r s₁
              (Sets-then on id (f queue) (f broadcast) (run queue) (run broadcast) r₁ s₂ s₃))
        where
          among_kinds :
              (k : Kind) (n : String)
              → either
                  (among rpc a.rpc_names)
                  (either (among queue a.queue_names) (among broadcast a.broadcast_names))
                  k
                  n
                ≡ contains n (activated_names a k)
          among_kinds rpc n = ground arith
          among_kinds queue n = ground arith
          among_kinds broadcast n = ground arith

    pub subscribe-Sets :
        (id : ℕ) (a : Activated) (r : Router V T)
        → r.server ≡ some id
        → Sets true id (λ k n. contains n (activated_names a k)) r (subscribe ops a r)
    unfolding subscribe
    subscribe-Sets id = three-Sets true id (activate_one ops) (activate_one-Sets id)

    pub unsubscribe-Sets :
        (id : ℕ) (a : Activated) (r : Router V T)
        → r.server ≡ some id
        → Sets false id (λ k n. contains n (activated_names a k)) r (unsubscribe ops a r)
    unfolding unsubscribe
    unsubscribe-Sets id = three-Sets false id (deactivate_one ops) (deactivate_one-Sets id)
