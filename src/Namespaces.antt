-- ===== src/Namespaces.antt =====
-- atasks/namespaces.py, and what the other modules keep there: `Codec.__init__`,
-- `Transport.__init__` and `Router.__init__` register themselves in their namespace, and `get_codec`,
-- `get_transport` and `get_router` look them up. Objects are known by a number.
pub mod Laws
use atasks.Prelude.{ℕ, suc, ◌+◌, String, Bool, true, false, Option, none, some, List, [], ◌∷◌}
use atasks.Prelude.Dict.{Dict}
use atasks.Registry.{Manager, RegistryItem, getattr}
use atasks.Registry

-- The registry `namespaces`, and the number of the next object that is made.
pub record Namespaces : Type 0 where
  pub manager : Manager ℕ
  pub next : ℕ

-- `namespaces = Manager(unite=True)`
unfoldable pub namespaces : Namespaces
namespaces = record { manager = Registry.new "" true; next = 0 }

abbrev register : String → Dict ℕ → Namespaces → Namespaces
register namespace options s = record s {
  manager = (Registry.register namespace options s.manager).1;
}

-- `getattr(namespaces.get(namespace), name, None)`
unfoldable pub get_object : String → String → Namespaces → Option ℕ × Namespaces
get_object name namespace s =
    let (item, m) = Registry.get namespace s.manager in
    (elim item [ none ↦ none | some i ↦ getattr i name ], record s { manager = m })

unfoldable pub get_codec : String → Namespaces → Option ℕ × Namespaces
get_codec = get_object "codec"

unfoldable pub get_transport : String → Namespaces → Option ℕ × Namespaces
get_transport = get_object "transport"

-- `Codec(namespace)`
unfoldable pub new_codec : String → Namespaces → ℕ × Namespaces
new_codec namespace s =
    (s.next, register namespace (("codec", s.next) ∷ []) (record s { next = suc s.next }))

-- `Transport(namespace)`
unfoldable pub new_transport : String → Namespaces → ℕ × Namespaces
new_transport namespace s =
    (s.next, register namespace (("transport", s.next) ∷ []) (record s { next = suc s.next }))

-- What `Router(namespace)` registers: itself and its three registries.
abbrev pub router_options : ℕ → Dict ℕ
router_options n =
    ("router", n)
    ∷ ("rpc_registry", n + 1)
    ∷ ("queue_registry", n + 2)
    ∷ ("broadcast_registry", n + 3)
    ∷ []

unfoldable pub new_router : String → Namespaces → ℕ × Namespaces
new_router namespace s =
    (s.next, register namespace (router_options s.next) (record s { next = s.next + 4 }))

abbrev router_or_new : String → Option ℕ × Namespaces → ℕ × Namespaces
router_or_new namespace (some router, s) = (router, s)
router_or_new namespace (none, s) = new_router namespace s

unfoldable pub get_router : String → Namespaces → ℕ × Namespaces
get_router namespace s = router_or_new namespace (get_object "router" namespace s)
