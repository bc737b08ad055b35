-- ===== src/Prelude/Text/Splits.antt =====
-- `split`, `join` and `strip` on a text that is put together.
use Prim.Native.Nat.{ℕ}
use Prim.Native.Char.{Char, code}
use Prim.Native.String.{String, ◌++◌ as ◌<>◌}
use mathlib.Core.Path.{◌≡◌, refl, sym, ap, ◌∙◌}
use mathlib.Core.Logic.{inl, inr}
use mathlib.Core.Bool.{Bool, true, false, not, ◌&&◌}
use mathlib.Core.List.{List, [], ◌∷◌, ◌++◌, flat_map, append-nil}
use native.Mathlib.Omega.{arith}
use text.Mathlib.Text.{◌==◌}
use text.Mathlib.TextLemmas.{nil-append, cons-append}
use atasks.Prelude.Tests.{nat_eq, Bool-cases}
use atasks.Prelude.Text.{has, split, join, is_space, lstrip, rstrip, strip}
use atasks.Prelude.Text.Parts.{one-eq, append-nonempty}

pub split-append :
    (k : ℕ) (s : String) (c : Char) (t : String)
    → nat_eq (code c) k ≡ true
    → has k s ≡ false
    → split k (s <> (String.◌∷◌ c "" <> t)) ≡ s ∷ split k t
unfolding split has
split-append k String.[] c t e h =
    rw (nil-append (String.◌∷◌ c "" <> t), one-eq c t) (ground (arith, e))
split-append k (String.◌∷◌ d s) c t e h =
    rw (cons-append d s (String.◌∷◌ c "" <> t), split-append k s c t e (ground (arith, h)))
      (ground (arith, h))

pub split_all : (k : ℕ) (s : String) → has k s ≡ false → split k s ≡ s ∷ []
unfolding split has
split_all k String.[] h = refl
split_all k (String.◌∷◌ d s) h = rw (split_all k s (ground (arith, h))) (ground (arith, h))

-- Not one of the texts has the character.
abbrev pub free_of : ℕ → List String → Bool
free_of k [] = true
free_of k (s ∷ rest) = not (has k s) && free_of k rest

pub split-join :
    (k : ℕ) (c : Char) (s : String) (rest : List String)
    → nat_eq (code c) k ≡ true
    → free_of k (s ∷ rest) ≡ true
    → split k (join (String.◌∷◌ c "") (s ∷ rest)) ≡ s ∷ rest
unfolding join
split-join k c s [] e h = split_all k s (ground (arith, h))
split-join k c s (t ∷ rest) e h =
    split-append k s c (join (String.◌∷◌ c "") (t ∷ rest)) e (ground (arith, h))
    ∙ ap (λ xs. s ∷ xs) (split-join k c t rest e (ground (arith, h)))

-- A text that begins with another character than a space, and one that ends with another.
pub lstrip-cons :
    (c : Char) (s : String) → is_space (code c) ≡ false → lstrip (String.◌∷◌ c s) ≡ String.◌∷◌ c s
unfolding lstrip
lstrip-cons c s h = ground (arith, h)

pub rstrip-append : (s t : String) → rstrip t ≡ t → (t == "") ≡ false → rstrip (s <> t) ≡ s <> t
unfolding rstrip
rstrip-append String.[] t e h = rw (nil-append t) e
rstrip-append (String.◌∷◌ c s) t e h =
    rw (cons-append c s t, rstrip-append s t e h) (ground (arith, append-nonempty s t h))

-- The first character is there, and is no space.
abbrev pub starts_clean : String → Bool
starts_clean String.[] = false
starts_clean (String.◌∷◌ c s) = not (is_space (code c))

pub strip-append :
    (s t : String)
    → starts_clean s ≡ true
    → rstrip t ≡ t
    → (t == "") ≡ false
    → strip (s <> t) ≡ s <> t
unfolding strip
strip-append String.[] t a e h = cc
strip-append (String.◌∷◌ c s) t a e h =
    ap rstrip (
      ap lstrip (cons-append c s t)
      ∙ lstrip-cons c (s <> t) (ground (arith, a))
      ∙ rw (cons-append c s t) refl)
    ∙ rstrip-append (String.◌∷◌ c s) t e h

pub rstrip-one :
    (c : Char) (s : String)
    → is_space (code c) ≡ false
    → rstrip s ≡ s
    → rstrip (String.◌∷◌ c "" <> s) ≡ String.◌∷◌ c "" <> s
unfolding rstrip
rstrip-one c s h e = rw (one-eq c s, e) (ground (arith, h))

split-nonempty :
    (k : ℕ) (s : String) → (part : String) × (parts : List String) × (split k s ≡ part ∷ parts)
unfolding split
split-nonempty k String.[] = ("", [], refl)
split-nonempty k (String.◌∷◌ c s) =
    let (part, parts, e) = split-nonempty k s in
    elim (Bool-cases (nat_eq (code c) k)) [
      | inl same ↦ ("", split k s, rw same refl)
      | inr other ↦ (String.◌∷◌ c part, parts, rw (e, other) refl)
    ]

-- Around a separator a text is split by itself.
pub split-append_any :
    (k : ℕ) (s : String) (c : Char) (t : String)
    → nat_eq (code c) k ≡ true
    → split k (s <> (String.◌∷◌ c "" <> t)) ≡ split k s ++ split k t
unfolding split
split-append_any k String.[] c t e =
    rw (nil-append (String.◌∷◌ c "" <> t), one-eq c t) (ground (arith, e))
split-append_any k (String.◌∷◌ d s) c t e =
    let (part, parts, p) = split-nonempty k s in
    rw (cons-append d s (String.◌∷◌ c "" <> t), split-append_any k s c t e, p) (ground arith)

pub split-join_any :
    (k : ℕ) (c : Char) (s : String) (rest : List String)
    → nat_eq (code c) k ≡ true
    → split k (join (String.◌∷◌ c "") (s ∷ rest)) ≡ flat_map (split k) (s ∷ rest)
unfolding join flat_map
split-join_any k c s [] e = sym (append-nil (split k s))
split-join_any k c s (t ∷ rest) e =
    split-append_any k s c (join (String.◌∷◌ c "") (t ∷ rest)) e
    ∙ ap (λ xs. split k s ++ xs) (split-join_any k c t rest e)

lstrip-has : (k : ℕ) (s : String) → has k s ≡ false → has k (lstrip s) ≡ false
unfolding lstrip has
lstrip-has k String.[] h = refl
lstrip-has k (String.◌∷◌ c s) h = ground (arith, h, lstrip-has k s)

rstrip-has : (k : ℕ) (s : String) → has k s ≡ false → has k (rstrip s) ≡ false
unfolding rstrip has
rstrip-has k String.[] h = refl
rstrip-has k (String.◌∷◌ c s) h = elim (Bool-cases (is_space (code c) && rstrip s == "")) [
  | inl e ↦ rw e refl
  | inr e ↦ rw e (ground (arith, h, rstrip-has k s))
]

pub strip-has : (k : ℕ) (s : String) → has k s ≡ false → has k (strip s) ≡ false
unfolding strip
strip-has k s h = rstrip-has k (lstrip s) (lstrip-has k s h)
