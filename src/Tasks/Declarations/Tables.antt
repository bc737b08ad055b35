-- ===== src/Tasks/Declarations/Tables.antt =====
-- The routers of the namespaces, and what is registered with each.
use atasks.Prelude.{
  ℕ, ◌+◌, ◌<◌, String, ◌≡◌, refl, sym, ap, ◌∙◌, true, false, not, ◌&&◌, Option, none, some, List,
  [], ◌==◌, eq_iff, ltb, nat_eq, if◌then◌else◌, arith, is_some, Option-cases, Bool-cases, inl, inr,
}
use atasks.Prelude.Dict
use atasks.Hop.{Kind, rpc, queue, broadcast}
use atasks.Registry
use atasks.Namespaces.{get_router}
use atasks.Namespaces.Laws.{object, get_router_lem, get_router-next}
use atasks.Router.{Router, registry, names, register}
use atasks.Router
use atasks.Router.Synced.{register_lem}
use atasks.Tasks.{Coroutine, task_name, decorate}
use atasks.Tasks.Declarations.{Application, router_of, set_router}

module _ (V : Type 0) {T : Type 0} (namespace : String) (transports : ℕ → T) where
  fresh : Router V T
  fresh = Router.new namespace transports

  fresh-names : (k : Kind) → names fresh k ≡ []
  unfolding fresh Router.new Registry.names Dict.keys
  fresh-names rpc = refl
  fresh-names queue = refl
  fresh-names broadcast = refl

  fresh-registry :
      (k : Kind)
      → (fresh.server ≡ none)
        × ((registry fresh k).unite ≡ false)
        × ((registry fresh k).name ≡ namespace)
  unfolding fresh Router.new
  fresh-registry rpc = (refl, refl, refl)
  fresh-registry queue = (refl, refl, refl)
  fresh-registry broadcast = (refl, refl, refl)

module _ {V T : Type 0} where
  -- A router that was not activated, of the namespace that it was made for.
  pub record IsIdle (namespace : String) (r : Router V T) : Type 0 where
    pub idle : r.server ≡ none
    pub strict : (k : Kind) → (registry r k).unite ≡ false
    pub named : (k : Kind) → (registry r k).name ≡ namespace

  new-IsIdle :
      (namespace : String) (transports : ℕ → T) → IsIdle namespace (Router.new namespace transports)
  unfolding fresh
  new-IsIdle namespace transports = record {
    idle = (fresh-registry V namespace transports rpc).0;
    strict = λ k. (fresh-registry V namespace transports k).1;
    named = λ k. (fresh-registry V namespace transports k).2;
  }

  pub register-kept :
      (kind : Kind) (name : String) (coro options : V) (r : Router V T) (k : Kind)
      → ((registry (register kind name coro options r).1 k).unite ≡ (registry r k).unite)
        × ((registry (register kind name coro options r).1 k).name ≡ (registry r k).name)
  unfolding register Registry.register
  register-kept rpc name coro options r rpc = ground arith
  register-kept kind name coro options r k = ground arith

  pub decorate-IsIdle :
      (kind : Kind) (name : Option String) (options : V) (coro : Coroutine V) (namespace : String)
      (r : Router V T)
      → IsIdle namespace r
      → IsIdle namespace (decorate kind name options coro r).1
  unfolding decorate
  decorate-IsIdle kind name options coro namespace r h =
      let n = task_name name coro in
      record {
        idle = (register_lem kind n coro.value options r kind (h.strict kind)).2 ∙ h.idle;
        strict = λ k. (register-kept kind n coro.value options r k).0 ∙ h.strict k;
        named = λ k. (register-kept kind n coro.value options r k).1 ∙ h.named k;
      }

  abbrev pub router_number : Application V T → String → Option ℕ
  router_number app namespace = object app.namespaces namespace "router"

  -- The names that are registered in a namespace, by kind.
  abbrev pub names_of : (ℕ → Router V T) → Kind → Option ℕ → List String
  names_of routers k none = []
  names_of routers k (some n) = names (routers n) k

  abbrev pub registered_names : Application V T → Kind → String → List String
  registered_names app k namespace = names_of app.routers k (router_number app namespace)

  pub record IsSettled (app : Application V T) : Type 0 where
    pub unites : app.namespaces.manager.unite ≡ true
    pub below : (x : String) (n : ℕ) → router_number app x ≡ some n → n < app.namespaces.next
    pub apart :
        (x y : String) (n : ℕ) → router_number app x ≡ some n → router_number app y ≡ some n → x ≡ y
    pub idles : (x : String) (n : ℕ) → router_number app x ≡ some n → IsIdle x (app.routers n)

  module _ (namespace : String) (app : Application V T) (h : IsSettled app) where
    -- The number of the router of any namespace, afterwards.
    router_of_lem :
        (j : String)
        → router_number (router_of namespace app).1 j ≡ (
            if namespace == j && not (is_some (router_number app namespace))
            then some app.namespaces.next
            else router_number app j)
    unfolding router_of Dict.lookup
    router_of_lem j = (get_router_lem namespace j "router" app.namespaces h.unites).4 ∙ ground arith

    router_of_fresh :
        router_number app namespace ≡ none
        → ((router_of namespace app).0 ≡ app.namespaces.next)
          × ((router_of namespace app).1.namespaces.next ≡ app.namespaces.next + 4)
          × ((router_of namespace app).1.routers
              ≡ set_router app.routers app.namespaces.next (Router.new namespace app.transports))
    unfolding router_of
    router_of_fresh e =
        let g = get_router_lem namespace namespace "router" app.namespaces h.unites in
        let next = get_router-next namespace app.namespaces h.unites in
        let n : (get_router namespace app.namespaces).0 ≡ app.namespaces.next = rw (g.0, e) refl in
        let done : ltb app.namespaces.next app.namespaces.next ≡ false = ground arith in
        (n, rw (next, e) refl, rw (n, done) refl)

    router_of_old :
        (n : ℕ)
        → router_number app namespace ≡ some n
        → ((router_of namespace app).0 ≡ n)
          × ((router_of namespace app).1.namespaces.next ≡ app.namespaces.next)
          × ((router_of namespace app).1.routers ≡ app.routers)
    unfolding router_of
    router_of_old n e =
        let g = get_router_lem namespace namespace "router" app.namespaces h.unites in
        let next = get_router-next namespace app.namespaces h.unites in
        let m : (get_router namespace app.namespaces).0 ≡ n = rw (g.0, e) refl in
        let there : ltb n app.namespaces.next ≡ true = ground (arith, h.below namespace n e) in
        (m, rw (next, e) refl, rw (m, there) refl)

    pub router_of_self :
        router_number (router_of namespace app).1 namespace ≡ some (router_of namespace app).0
    router_of_self = elim (Option-cases (router_number app namespace)) [
      | inl e ↦
          router_of_lem namespace ∙ ground (arith, e, router_of_fresh e, eq_iff namespace namespace)
      | inr (n, e) ↦ router_of_lem namespace ∙ ground (arith, e, router_of_old n e)
    ]

    router_of_united : (router_of namespace app).1.namespaces.manager.unite ≡ true
    unfolding router_of
    router_of_united = (get_router_lem namespace namespace "router" app.namespaces h.unites).5

    router_of_made :
        (x : String) (n : ℕ)
        → router_number app namespace ≡ none
        → router_number (router_of namespace app).1 x ≡ some n
        → IsIdle x
            (set_router app.routers app.namespaces.next (Router.new namespace app.transports) n)
    router_of_made x n e r = elim (Bool-cases (namespace == x)) [
      | inl same ↦
          let new : nat_eq n app.namespaces.next ≡ true =
            ground (arith, e, r, same, router_of_lem x) in
          rw (new, sym ((eq_iff namespace x).0 same)) (new-IsIdle namespace app.transports)
      | inr other ↦
          let old : router_number app x ≡ some n = ground (arith, e, r, other, router_of_lem x) in
          let distinct : nat_eq n app.namespaces.next ≡ false = ground (arith, h.below x n old) in
          rw distinct (h.idles x n old)
    ]

    pub router_of-IsSettled : IsSettled (router_of namespace app).1
    router_of-IsSettled = elim (Option-cases (router_number app namespace)) [
      | inl e ↦
          let l = router_of_fresh e in
          record {
            unites = router_of_united;
            below = λ x n r. ground (arith, e, l.1, r, router_of_lem x, h.below x n);
            apart = λ x y n r q. ground (
              arith,
              e,
              r,
              q,
              router_of_lem x,
              router_of_lem y,
              h.below x n,
              h.below y n,
              h.apart x y n,
              eq_iff namespace x,
              eq_iff namespace y,
            );
            idles = λ x n r. rw l.2 (router_of_made x n e r);
          }
      | inr (n, e) ↦
          let l = router_of_old n e in
          record {
            unites = router_of_united;
            below = λ x n r. ground (arith, e, l.1, r, router_of_lem x, h.below x n);
            apart = λ x y n r q.
                ground (arith, e, r, q, router_of_lem x, router_of_lem y, h.apart x y n);
            idles = λ x m r. rw l.2 (h.idles x m (ground (arith, e, r, router_of_lem x)));
          }
    ]

    -- Making a router registers nothing.
    fresh-registered_names :
        (k : Kind) (j : String)
        → router_number app namespace ≡ none
        → names_of
            (set_router app.routers app.namespaces.next (Router.new namespace app.transports))
            k
            (router_number (router_of namespace app).1 j)
          ≡ registered_names app k j
    unfolding fresh
    fresh-registered_names k j e =
        let next = app.namespaces.next in
        elim (Bool-cases (namespace == j)) [
          | inl same ↦
              let made : router_number (router_of namespace app).1 j ≡ some next =
                ground (arith, e, same, router_of_lem j) in
              let none_yet : router_number app j ≡ none = rw (← (eq_iff namespace j).0 same) e in
              let self : nat_eq next next ≡ true = ground arith in
              rw (made, none_yet, self) (fresh-names V namespace app.transports k)
          | inr other ↦
              let kept : router_number (router_of namespace app).1 j ≡ router_number app j =
                ground (arith, e, other, router_of_lem j) in
              elim (Option-cases (router_number app j)) [
                | inl f ↦ rw (kept, f) refl
                | inr (m, f) ↦
                    let distinct : nat_eq m next ≡ false = ground (arith, h.below j m f) in
                    rw (kept, f, distinct) refl
              ]
        ]

    pub router_of-registered_names :
        (k : Kind) (j : String)
        → registered_names (router_of namespace app).1 k j ≡ registered_names app k j
    router_of-registered_names k j = elim (Option-cases (router_number app namespace)) [
      | inl e ↦
          ap (λ routers. names_of routers k (router_number (router_of namespace app).1 j))
            (router_of_fresh e).2
          ∙ fresh-registered_names k j e
      | inr (n, e) ↦
          ap (λ routers. names_of routers k (router_number (router_of namespace app).1 j))
            (router_of_old n e).2
          ∙ ap (names_of app.routers k) (router_of_lem j ∙ ground (arith, e))
    ]

  -- A router that is set under its number.
  module _ (app : Application V T) (h : IsSettled app) (namespace : String) (n : ℕ)
      (own : router_number app namespace ≡ some n) (r : Router V T) where
    pub set_router-IsSettled :
        IsIdle namespace r → IsSettled (record app { routers = set_router app.routers n r })
    set_router-IsSettled i = record {
      unites = h.unites;
      below = h.below;
      apart = h.apart;
      idles = λ x m e. elim (Bool-cases (nat_eq m n)) [
        | inl same ↦
            let x_is : namespace ≡ x = h.apart namespace x n own (ground (arith, e, same)) in
            rw (same, ← x_is) i
        | inr other ↦ rw other (h.idles x m e)
      ];
    }

    pub set_router-registered_names :
        (k : Kind) (j : String)
        → registered_names (record app { routers = set_router app.routers n r }) k j
          ≡ (if namespace == j then names r k else registered_names app k j)
    set_router-registered_names k j = elim (Bool-cases (namespace == j)) [
      | inl same ↦
          let here : router_number app j ≡ some n = rw (← (eq_iff namespace j).0 same) own in
          let self : nat_eq n n ≡ true = ground arith in rw (same, here, self) refl
      | inr other ↦ elim (Option-cases (router_number app j)) [
        | inl e ↦ rw (other, e) refl
        | inr (m, e) ↦
            let distinct : nat_eq m n ≡ false =
              ground (arith, other, e, own, h.apart namespace j n, eq_iff namespace j) in
            rw (other, e, distinct) refl
      ]
    ]
