-- ===== src/Namespaces/Laws.antt =====
-- Laws of the namespaces: one router for each, and no effect on another.
use atasks.Prelude.{
  ℕ, ◌+◌, String, ◌≡◌, refl, ap, ◌∙◌, true, not, ◌&&◌, Option, none, some, ◌==◌, eq_iff, arith,
  is_some, if◌then◌else◌, Option-cases, inl, inr,
}
use atasks.Prelude.Lists.{Distinct}
use atasks.Prelude.Dict
use atasks.Prelude.Dict.{Dict, lookup-insert, lookup-nil}
use atasks.Registry.{Manager, RegistryItem, getattr}
use atasks.Registry
use atasks.Registry.Laws.{attribute, register_unite, get_unite}
use atasks.Namespaces.{
  Namespaces, get_object, router_options, new_router, router_or_new, get_router,
}

-- What a namespace holds under a name.
abbrev pub object : Namespaces → String → String → Option ℕ
object s namespace name = attribute s.manager namespace name

get-unite : (namespace : String) (m : Manager ℕ) → (Registry.get namespace m).1.unite ≡ m.unite
unfolding Registry.get
get-unite namespace m = ground arith

register-unite :
    (namespace : String) (options : Dict ℕ) (m : Manager ℕ)
    → (Registry.register namespace options m).1.unite ≡ m.unite
unfolding Registry.register
register-unite namespace options m = ground arith

pub get_object_lem :
    (name namespace j a : String) (s : Namespaces)
    → s.manager.unite ≡ true
    → ((get_object name namespace s).0 ≡ object s namespace name)
      × (object (get_object name namespace s).1 j a ≡ object s j a)
      × ((get_object name namespace s).1.manager.unite ≡ true)
      × ((get_object name namespace s).1.next ≡ s.next)
unfolding get_object
get_object_lem name namespace j a s u = (
  ground (arith, (get_unite s.manager namespace j name u).0),
  (get_unite s.manager namespace j a u).1,
  get-unite namespace s.manager ∙ u,
  refl,
)

router_options-Distinct : (n : ℕ) → Distinct (Dict.keys (router_options n))
unfolding Dict.keys
router_options-Distinct n = (refl, (refl, (refl, (refl, tt))))

router_options-lookup :
    (n : ℕ)
    → (Dict.lookup "router" (router_options n) ≡ some n)
      × (Dict.lookup "codec" (router_options n) ≡ none)
      × (Dict.lookup "transport" (router_options n) ≡ none)
unfolding Dict.lookup
router_options-lookup n = (refl, refl, refl)

new_router_lem :
    (namespace j a : String) (s : Namespaces)
    → s.manager.unite ≡ true
    → ((new_router namespace s).0 ≡ s.next)
      × (object (new_router namespace s).1 j a ≡ (
          if namespace == j
          then elim (Dict.lookup a (router_options s.next)) [
            | none ↦ object s j a
            | some v ↦ some v
          ]
          else object s j a))
      × ((new_router namespace s).1.manager.unite ≡ true)
unfolding new_router
new_router_lem namespace j a s u = (
  refl,
  (register_unite s.manager namespace (router_options s.next) j a u
      (router_options-Distinct s.next)).1,
  register-unite namespace (router_options s.next) s.manager ∙ u,
)

-- `get_router` returns the router of the namespace, or makes one and registers it with its three
-- registries where there is none. Afterwards the namespace has the router that was returned, its
-- codec and its transport are as they were, and so is every other namespace.
pub get_router_lem :
    (namespace j a : String) (s : Namespaces)
    → s.manager.unite ≡ true
    → ((get_router namespace s).0
        ≡ elim (object s namespace "router") [ none ↦ s.next | some router ↦ router ])
      × (object (get_router namespace s).1 namespace "router" ≡ some (get_router namespace s).0)
      × (object (get_router namespace s).1 namespace "codec" ≡ object s namespace "codec")
      × (object (get_router namespace s).1 namespace "transport" ≡ object s namespace "transport")
      × (object (get_router namespace s).1 j a ≡ (
          if namespace == j && not (is_some (object s namespace "router"))
          then elim (Dict.lookup a (router_options s.next)) [
            | none ↦ object s j a
            | some v ↦ some v
          ]
          else object s j a))
      × ((get_router namespace s).1.manager.unite ≡ true)
unfolding get_router
get_router_lem namespace j a s u =
    let t = (get_object "router" namespace s).1 in
    let g = λ (x y : String). get_object_lem "router" namespace x y s u in
    let l = λ (x y : String). new_router_lem namespace x y t (g x y).2 in
    elim (Option-cases (object s namespace "router")) [
      | inl e ↦
          rw ((g j a).0, e, router_or_new)
            let o = router_options-lookup t.next in
              (
                (l j a).0 ∙ (g j a).3,
                ground (arith, l namespace "router", eq_iff namespace namespace, o),
                ground (arith, l namespace "codec", g namespace "codec", o),
                ground (arith, l namespace "transport", g namespace "transport", o),
                ground
                    (arith, l j a, (g j a).1, ap (λ n. Dict.lookup a (router_options n)) (g j a).3),
                (l j a).2,
              )
      | inr (router, e) ↦
          rw ((g j a).0, e, router_or_new)
            (
              refl,
              (g namespace "router").1 ∙ e,
              (g namespace "codec").1,
              (g namespace "transport").1,
              ground (arith, (g j a).1),
              (g j a).2,
            )
    ]

-- A router that is made takes four numbers, for itself and its registries.
pub get_router-next :
    (namespace : String) (s : Namespaces)
    → s.manager.unite ≡ true
    → (get_router namespace s).1.next
      ≡ elim (object s namespace "router") [ none ↦ s.next + 4 | some _ ↦ s.next ]
unfolding get_router new_router
get_router-next namespace s u =
    let g = get_object_lem "router" namespace namespace "router" s u in
    elim (Option-cases (object s namespace "router")) [
      | inl e ↦ rw (g.0, e, router_or_new) (ap (λ n. n + 4) g.3)
      | inr (router, e) ↦ rw (g.0, e, router_or_new) g.3
    ]
