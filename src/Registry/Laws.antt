-- ===== src/Registry/Laws.antt =====
-- Laws of the `Manager` of atasks/registry.py.
use atasks.Prelude.{
  String, ◌≡◌, true, false, Option, none, some, List, [], ◌∷◌, ◌++◌, arith, eq_iff, if◌then◌else◌,
  ◌==◌, Bool-cases, inl, inr, not, ◌&&◌, Option-cases,
}
use atasks.Prelude.Lists.{contains, Distinct}
use atasks.Prelude.Dict
use atasks.Prelude.Dict.{
  Dict, lookup-insert, keys-insert, contains-keys, lookup-update, Distinct-keys-insert,
  Distinct-keys-erase, lookup-nil, lookup-erase, contains-keys-erase,
}
use atasks.Errors.{returned, raised, exception, registering_twice, key_error}
use atasks.Registry.{
  RegistryItem, Manager, getattr, update, register, register_over, names, unregister, get, get_over,
}

module _ {V : Type 0} where
  -- The item that a registry holds under a name.
  abbrev pub item : Manager V → String → Option (RegistryItem V)
  item m name = Dict.lookup name m.registry

  -- In a registry that does not unite, a registration under a new name returns, puts the name last
  -- and changes no other item; one under a name that is there raises and changes nothing.
  pub register_strict :
      (m : Manager V) (name : String) (options : Dict V) (j : String)
      → m.unite ≡ false
      → ((register name options m).0 ≡ (
          if contains name (names m)
          then raised (exception (registering_twice m.name name))
          else returned tt))
        × (names (register name options m).1
            ≡ (if contains name (names m) then names m else names m ++ name ∷ []))
        × (item (register name options m).1 j ≡ (
            if not (contains name (names m)) && name == j
            then some (record { attributes = options })
            else item m j))
  unfolding register names
  register_strict m name options j strict = (
    ground (arith, contains-keys name m.registry),
    ground (
      arith,
      contains-keys name m.registry,
      keys-insert name (record { attributes = options }) m.registry,
    ),
    ground (
      arith,
      contains-keys name m.registry,
      lookup-insert j name (record { attributes = options }) m.registry,
    ),
  )

  -- `getattr(manager.get(name), a, None)`, with no item made.
  abbrev pub attribute : Manager V → String → String → Option V
  attribute m name a = elim (item m name) [ none ↦ none | some i ↦ getattr i a ]

  -- In a registry that unites, a registration returns, sets the given attributes of its item, and
  -- leaves the other attributes, and every other item, as they were.
  pub register_unite :
      (m : Manager V) (name : String) (options : Dict V) (j a : String)
      → m.unite ≡ true
      → Distinct (Dict.keys options)
      → ((register name options m).0 ≡ returned tt)
        × (attribute (register name options m).1 j a ≡ (
            if name == j
            then elim (Dict.lookup a options) [ none ↦ attribute m j a | some v ↦ some v ]
            else attribute m j a))
  unfolding register getattr update
  register_unite m name options j a unite distinct = elim (Option-cases (item m name)) [
    | inl fresh ↦ (
      ground arith,
      ground
          (arith, lookup-insert j name (record { attributes = options }) m.registry, eq_iff name j),
    )
    | inr (old, held) ↦ (
      ground arith,
      ground (
        arith,
        lookup-insert j name (record { attributes = Dict.update old.attributes options })
            m.registry,
        lookup-update a old.attributes options distinct,
        eq_iff name j,
      ),
    )
  ]

  -- `get` of a registry that unites always returns an item, with the attributes that were held
  -- under the name, and no attribute of any name changes, though an empty item may be made.
  pub get_unite :
      (m : Manager V) (name j a : String)
      → m.unite ≡ true
      → (elim (get name m).0 [ none ↦ none | some i ↦ some (getattr i a) ]
          ≡ some (attribute m name a))
        × (attribute (get name m).1 j a ≡ attribute m j a)
  unfolding get getattr
  get_unite m name j a unite = (
    ground (arith, lookup-nil {V = V} a),
    ground (
      arith,
      lookup-insert j name (record { attributes = [] }) m.registry,
      lookup-nil {V = V} a,
      eq_iff name j,
    ),
  )

-- What can be done to a registry.
pub data Op (V : Type 0) : Type 0 where
  register_op : String → Dict V → Op V
  unregister_op get_op : String → Op V

module _ {V : Type 0} where
  abbrev pub step : Op V → Manager V → Manager V
  step (register_op name options) m = (register name options m).1
  step (unregister_op name) m = (unregister name m).1
  step (get_op name) m = (get name m).1

  abbrev pub run : List (Op V) → Manager V → Manager V
  run [] m = m
  run (op ∷ ops) m = run ops (step op m)

  pub record IsLike (m₀ m : Manager V) : Type 0 where
    pub distinct : Distinct (names m)
    pub same_name : m.name ≡ m₀.name
    pub same_unite : m.unite ≡ m₀.unite

  register_over-Distinct :
      (o : Option (RegistryItem V)) (m : Manager V) (name : String) (options : Dict V)
      → Distinct (names m)
      → Distinct (names (register_over o m name options).1)
  unfolding register_over names
  register_over-Distinct none m name options h = Distinct-keys-insert name _ m.registry h
  register_over-Distinct (some old) m name options h = elim (Bool-cases m.unite) [
    | inl u ↦ rw u (Distinct-keys-insert name _ m.registry h)
    | inr u ↦ rw u h
  ]

  get_over-Distinct :
      (o : Option (RegistryItem V)) (m : Manager V) (name : String)
      → Distinct (names m)
      → Distinct (names (get_over o m name).1)
  unfolding get_over names
  get_over-Distinct (some old) m name h = h
  get_over-Distinct none m name h = elim (Bool-cases m.unite) [
    | inl u ↦ rw u (Distinct-keys-insert name _ m.registry h)
    | inr u ↦ rw u h
  ]

  unregister-Distinct :
      (name : String) (m : Manager V) → Distinct (names m) → Distinct (names (unregister name m).1)
  unfolding unregister names
  unregister-Distinct name m h = elim (Option-cases (item m name)) [
    | inl e ↦ rw (e, unregister) h
    | inr (i, e) ↦ rw (e, unregister) (Distinct-keys-erase name m.registry h)
  ]

  pub step-IsLike : (m₀ m : Manager V) (op : Op V) → IsLike m₀ m → IsLike m₀ (step op m)
  unfolding register unregister get
  step-IsLike m₀ m (register_op name options) h = record {
    distinct = register_over-Distinct _ m name options h.distinct;
    same_name = ground arith;
    same_unite = ground arith;
  }
  step-IsLike m₀ m (unregister_op name) h = record {
    distinct = unregister-Distinct name m h.distinct;
    same_name = ground arith;
    same_unite = ground arith;
  }
  step-IsLike m₀ m (get_op name) h = record {
    distinct = get_over-Distinct _ m name h.distinct;
    same_name = ground arith;
    same_unite = ground arith;
  }

  -- After any operations, failed ones included, no name is listed twice, and the registry has the
  -- name and the mode that it had.
  pub run-IsLike : (m₀ m : Manager V) (ops : List (Op V)) → IsLike m₀ m → IsLike m₀ (run ops m)
  run-IsLike m₀ m [] h = h
  run-IsLike m₀ m (op ∷ ops) h = run-IsLike m₀ (step op m) ops (step-IsLike m₀ m op h)

  -- Unregistering a name that is there returns, takes it off and leaves every other item; under
  -- another name it raises `KeyError` and changes nothing.
  pub unregister_lem :
      (m : Manager V) (name j : String)
      → ((unregister name m).0
          ≡ (if contains name (names m) then returned tt else raised (exception (key_error name))))
        × (item (unregister name m).1 j ≡ (if name == j then none else item m j))
        × (contains j (names (unregister name m).1)
            ≡ (if name == j then false else contains j (names m)))
  unfolding unregister names
  unregister_lem m name j = (
    ground (arith, contains-keys name m.registry),
    ground (arith, lookup-erase j name m.registry, eq_iff name j),
    ground (
      arith,
      contains-keys-erase j name m.registry,
      contains-keys name m.registry,
      contains-keys j m.registry,
      eq_iff name j,
    ),
  )

  pub unite-register :
      (name : String) (options : Dict V) (m : Manager V)
      → (register name options m).1.unite ≡ m.unite
  unfolding register
  unite-register name options m = ground arith
