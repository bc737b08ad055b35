-- ===== src/Registry.antt =====
-- atasks/registry.py and atasks/namespaces.py: a registry of items, each a bag of named attributes.
-- The attributes are of any type `V`; an item is its `__dict__`.
pub mod Laws
use atasks.Prelude.{String, Bool, true, false, Option, none, some, List, [], if◌then◌else◌}
use atasks.Prelude.Dict
use atasks.Prelude.Dict.{Dict}
use atasks.Errors.{registering_twice, key_error, Outcome, returned, raised, exception}

pub record RegistryItem (V : Type 0) : Type 0 where
  pub attributes : Dict V

pub record Manager (V : Type 0) : Type 0 where
  pub name : String
  pub unite : Bool
  pub registry : Dict (RegistryItem V)

module _ {V : Type 0} where
  -- `getattr(item, name, None)`
  unfoldable pub getattr : RegistryItem V → String → Option V
  getattr item name = Dict.lookup name item.attributes

  -- `RegistryItem.update`
  unfoldable pub update : RegistryItem V → RegistryItem V → RegistryItem V
  update item other = record { attributes = Dict.update item.attributes other.attributes }

  -- `Manager(name, unite)`
  unfoldable pub new : String → Bool → Manager V
  new name unite = record { name = name; unite = unite; registry = [] }

  abbrev put : Manager V → String → RegistryItem V → Manager V
  put m name item = record m { registry = Dict.insert name item m.registry }

  -- An item has no `__bool__` and no `__len__`, so `if old` holds of every item that is there.
  register_over :
      Option (RegistryItem V) → Manager V → String → Dict V → Outcome (Unit {0}) × Manager V
  register_over none m name options = (returned tt, put m name (record { attributes = options }))
  register_over (some old) m name options =
      if m.unite
      then (returned tt, put m name (update old (record { attributes = options })))
      else (raised (exception (registering_twice m.name name)), m)

  unfoldable pub register : String → Dict V → Manager V → Outcome (Unit {0}) × Manager V
  unfolding register_over
  register name options m = register_over (Dict.lookup name m.registry) m name options

  unfoldable pub names : Manager V → List String
  names m = Dict.keys m.registry

  unfoldable pub unregister : String → Manager V → Outcome (Unit {0}) × Manager V
  unregister name m = elim (Dict.lookup name m.registry) [
    | none ↦ (raised (exception (key_error name)), m)
    | some item ↦ (returned tt, record m { registry = Dict.erase name m.registry })
  ]

  get_over : Option (RegistryItem V) → Manager V → String → Option (RegistryItem V) × Manager V
  get_over (some ret) m name = (some ret, m)
  get_over none m name =
      if m.unite
      then (some (record { attributes = [] }), put m name (record { attributes = [] }))
      else (none, m)

  unfoldable pub get : String → Manager V → Option (RegistryItem V) × Manager V
  unfolding get_over
  get name m = get_over (Dict.lookup name m.registry) m name
