-- ===== src/Prelude/Text/Parts.antt =====
-- `in`, `partition` and `startswith` on a text that is put together.
use Prim.Native.Nat.{ℕ}
use Prim.Native.Char.{Char, code}
use Prim.Native.String.{String, ◌++◌ as ◌<>◌}
use mathlib.Core.Path.{◌≡◌, refl}
use mathlib.Core.Bool.{true, false, not, ◌||◌}
use native.Mathlib.Omega.{arith}
use text.Mathlib.Text.{◌==◌}
use text.Mathlib.TextLemmas.{nil-append, cons-append, cons-ne-nil}
use text.Mathlib.TextEquality.{eq_iff}
use atasks.Prelude.Tests.{nat_eq}
use atasks.Prelude.Text.{has, before, after, begins, at_most_one}

-- A text of one character, before another.
pub one-eq : (c : Char) (t : String) → String.◌∷◌ c "" <> t ≡ String.◌∷◌ c t
one-eq c t = rw (cons-append c "" t, nil-append t) refl

pub has-append : (k : ℕ) (s t : String) → has k (s <> t) ≡ (has k s || has k t)
unfolding has
has-append k String.[] t = rw (nil-append t) refl
has-append k (String.◌∷◌ c s) t = rw (cons-append c s t) (ground (arith, has-append k s t))

pub has-one :
    (k : ℕ) (c : Char) (t : String) → has k (String.◌∷◌ c "" <> t) ≡ (nat_eq (code c) k || has k t)
unfolding has
has-one k c t = rw (one-eq c t) refl

pub has-last : (k : ℕ) (c : Char) → has k (String.◌∷◌ c "") ≡ nat_eq (code c) k
unfolding has
has-last k c = ground arith

pub before-append :
    (k : ℕ) (s : String) (c : Char) (t : String)
    → nat_eq (code c) k ≡ true
    → has k s ≡ false
    → before k (s <> (String.◌∷◌ c "" <> t)) ≡ s
unfolding before has
before-append k String.[] c t e h =
    rw (nil-append (String.◌∷◌ c "" <> t), one-eq c t) (ground (arith, e))
before-append k (String.◌∷◌ d s) c t e h =
    rw (cons-append d s (String.◌∷◌ c "" <> t)) (ground (arith, h, before-append k s c t e))

pub after-append :
    (k : ℕ) (s : String) (c : Char) (t : String)
    → nat_eq (code c) k ≡ true
    → has k s ≡ false
    → after k (s <> (String.◌∷◌ c "" <> t)) ≡ t
unfolding after has
after-append k String.[] c t e h =
    rw (nil-append (String.◌∷◌ c "" <> t), one-eq c t) (ground (arith, e))
after-append k (String.◌∷◌ d s) c t e h =
    rw (cons-append d s (String.◌∷◌ c "" <> t)) (ground (arith, h, after-append k s c t e))

-- Where the separator is missing.
pub before_all : (k : ℕ) (s : String) → has k s ≡ false → before k s ≡ s
unfolding before has
before_all k String.[] h = refl
before_all k (String.◌∷◌ d s) h = ground (arith, h, before_all k s)

pub begins-append : (k : ℕ) (s t : String) → (s == "") ≡ false → begins k (s <> t) ≡ begins k s
begins-append k String.[] t h = absurd (ground (arith, h))
begins-append k (String.◌∷◌ c s) t h = rw (cons-append c s t) refl

pub at_most_one-append :
    (k : ℕ) (s : String) (c : Char) (t : String)
    → nat_eq (code c) k ≡ true
    → has k s ≡ false
    → at_most_one k (s <> (String.◌∷◌ c "" <> t)) ≡ not (has k t)
unfolding at_most_one has
at_most_one-append k String.[] c t e h =
    rw (nil-append (String.◌∷◌ c "" <> t), one-eq c t) (ground (arith, e))
at_most_one-append k (String.◌∷◌ d s) c t e h =
    rw (cons-append d s (String.◌∷◌ c "" <> t)) (ground (arith, h, at_most_one-append k s c t e))

pub at_most_one_none : (k : ℕ) (s : String) → has k s ≡ false → at_most_one k s ≡ true
unfolding at_most_one has
at_most_one_none k String.[] h = refl
at_most_one_none k (String.◌∷◌ d s) h = ground (arith, h, at_most_one_none k s)

pub nonempty-append : (s t : String) → (s == "") ≡ false → ((s <> t) == "") ≡ false
nonempty-append String.[] t h = absurd (ground (arith, h))
nonempty-append (String.◌∷◌ c s) t h =
    rw (cons-append c s t)
      (ground (arith, eq_iff (String.◌∷◌ c (s <> t)) "", cons-ne-nil c (s <> t)))

pub append-nonempty : (s t : String) → (t == "") ≡ false → ((s <> t) == "") ≡ false
append-nonempty String.[] t h = rw (nil-append t) h
append-nonempty (String.◌∷◌ c s) t h =
    nonempty-append (String.◌∷◌ c s) t (ground (arith, eq_iff (String.◌∷◌ c s) "", cons-ne-nil c s))
