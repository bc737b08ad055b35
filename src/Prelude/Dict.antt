-- ===== src/Prelude/Dict.antt =====
-- Python's `dict` with string keys, in insertion order: an assignment to a key that is there keeps
-- its place, and another one goes to the end.
use Prim.Native.String.{String}
use mathlib.Core.Path.{◌≡◌, refl}
use mathlib.Core.Logic.{inl, inr}
use mathlib.Core.Bool.{false}
use mathlib.Core.Option.{Option, none, some}
use mathlib.Core.List.{List, [], ◌∷◌, ◌++◌}
use native.Mathlib.Omega.{arith}
use text.Mathlib.Text.{◌==◌}
use text.Mathlib.TextEquality.{eq_iff}
use atasks.Prelude.Tests.{if◌then◌else◌, is_some, Bool-cases}
use atasks.Prelude.Lists.{contains, Distinct, Distinct-snoc}

abbrev pub Dict {ℓ} : Type ℓ → Type ℓ
Dict V = List (String × V)

module _ {ℓ} {V : Type ℓ} where
  -- `list(d)`
  unfoldable pub keys : Dict V → List String
  keys [] = []
  keys ((k, v) ∷ d) = k ∷ keys d

  -- `d.get(k)`
  unfoldable pub lookup : String → Dict V → Option V
  lookup k [] = none
  lookup k ((j, v) ∷ d) = if j == k then some v else lookup k d

  -- `d[k] = v`
  unfoldable pub insert : String → V → Dict V → Dict V
  insert k v [] = (k, v) ∷ []
  insert k v ((j, w) ∷ d) = if j == k then (j, v) ∷ d else (j, w) ∷ insert k v d

  -- `d.pop(k, None)`
  unfoldable pub erase : String → Dict V → Dict V
  erase k [] = []
  erase k ((j, w) ∷ d) = let rest = erase k d in if j == k then rest else (j, w) ∷ rest

  -- `d.update(other)`
  unfoldable pub update : Dict V → Dict V → Dict V
  update d [] = d
  update d ((k, v) ∷ other) = update (insert k v d) other

  pub lookup-nil : (k : String) → lookup k [] ≡ none
  unfolding lookup
  lookup-nil k = refl

  pub lookup-insert :
      (j k : String) (v : V) (d : Dict V)
      → lookup j (insert k v d) ≡ (if k == j then some v else lookup j d)
  unfolding insert lookup
  lookup-insert j k v [] = refl
  lookup-insert j k v ((i, w) ∷ d) =
      ground (arith, lookup-insert j k v d, eq_iff i j, eq_iff i k, eq_iff k j)

  pub lookup-erase :
      (j k : String) (d : Dict V) → lookup j (erase k d) ≡ (if k == j then none else lookup j d)
  unfolding erase lookup
  lookup-erase j k [] = ground arith
  lookup-erase j k ((i, w) ∷ d) =
      ground (arith, lookup-erase j k d, eq_iff i j, eq_iff i k, eq_iff k j)

  pub contains-keys : (k : String) (d : Dict V) → contains k (keys d) ≡ is_some (lookup k d)
  unfolding keys lookup
  contains-keys k [] = refl
  contains-keys k ((j, v) ∷ d) = ground (arith, contains-keys k d)

  pub keys-insert :
      (k : String) (v : V) (d : Dict V)
      → keys (insert k v d) ≡ (if contains k (keys d) then keys d else keys d ++ (k ∷ []))
  unfolding keys insert
  keys-insert k v [] = refl
  keys-insert k v ((j, w) ∷ d) = ground (arith, keys-insert k v d)

  pub contains-keys-erase :
      (j k : String) (d : Dict V)
      → contains j (keys (erase k d)) ≡ (if k == j then false else contains j (keys d))
  contains-keys-erase j k d =
      ground (arith, contains-keys j (erase k d), contains-keys j d, lookup-erase j k d)

  pub Distinct-keys-insert :
      (k : String) (v : V) (d : Dict V) → Distinct (keys d) → Distinct (keys (insert k v d))
  Distinct-keys-insert k v d h = elim (Bool-cases (contains k (keys d))) [
    | inl old ↦ rw (keys-insert, old) h
    | inr new ↦ rw (keys-insert, new) (Distinct-snoc k (keys d) new h)
  ]

  pub Distinct-keys-erase :
      (k : String) (d : Dict V) → Distinct (keys d) → Distinct (keys (erase k d))
  unfolding keys erase
  Distinct-keys-erase k [] h = tt
  Distinct-keys-erase k ((j, w) ∷ d) h =
      ground (arith, Distinct-keys-erase k d h.1, contains-keys-erase j k d)

  pub lookup-update :
      (j : String) (d other : Dict V)
      → Distinct (keys other)
      → lookup j (update d other) ≡ elim (lookup j other) [ none ↦ lookup j d | some v ↦ some v ]
  unfolding update lookup keys
  lookup-update j d [] h = refl
  lookup-update j d ((k, v) ∷ other) h = ground (
    arith,
    lookup-update j (insert k v d) other h.1,
    lookup-insert j k v d,
    contains-keys k other,
    eq_iff k j,
  )
