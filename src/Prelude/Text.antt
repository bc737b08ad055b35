-- ===== src/Prelude/Text.antt =====
-- The methods of Python's `str` that the program uses, over the characters of a text.
pub mod Parts
pub mod Splits
pub mod Decimal
use Prim.Native.Nat.{ℕ, suc, ◌+◌}
use Prim.Native.Char.{Char, code}
use Prim.Native.String.{String, ◌++◌ as ◌<>◌, count}
use mathlib.Core.Path.{◌≡◌, refl, ap, ◌∙◌, sym}
use mathlib.Core.Bool.{Bool, true, false, not, ◌&&◌, ◌||◌}
use mathlib.Core.List.{List, [], ◌∷◌}
use native.Mathlib.Omega.{arith}
use text.Mathlib.Text.{◌==◌}
use text.Mathlib.TextLemmas.{length-append, length-cons, nil-append, cons-append}
use text.Mathlib.TextPositions.{eq_refl}
use text.Mathlib.TextEquality.{eq_iff}
use mathlib.Core.Logic.{inl, inr}
use atasks.Prelude.Tests.{leb, nat_eq, if◌then◌else◌, Bool-cases}

-- `s.endswith(t)`
unfoldable pub ends_with : String → String → Bool
ends_with String.[] t = t == ""
ends_with (String.◌∷◌ c s) t = (String.◌∷◌ c s) == t || ends_with s t

-- `s.startswith(t)`
unfoldable pub starts_with : String → String → Bool
starts_with s String.[] = true
starts_with String.[] (String.◌∷◌ d t) = false
starts_with (String.◌∷◌ c s) (String.◌∷◌ d t) = nat_eq (code c) (code d) && starts_with s t

-- `s[:-n]`, for a positive `n`.
unfoldable pub drop_end : ℕ → String → String
drop_end n String.[] = ""
drop_end n (String.◌∷◌ c s) = if leb n (count s) then String.◌∷◌ c (drop_end n s) else ""

-- `c in s`, for a character.
unfoldable pub has : ℕ → String → Bool
has k String.[] = false
has k (String.◌∷◌ c s) = nat_eq (code c) k || has k s

-- The two parts of `s.partition(c)` beside the separator.
unfoldable pub before : ℕ → String → String
before k String.[] = ""
before k (String.◌∷◌ c s) = if nat_eq (code c) k then "" else String.◌∷◌ c (before k s)

unfoldable pub after : ℕ → String → String
after k String.[] = ""
after k (String.◌∷◌ c s) = if nat_eq (code c) k then s else after k s

-- `s.split(c)`
unfoldable pub split : ℕ → String → List String
split k String.[] = "" ∷ []
split k (String.◌∷◌ c s) =
    let rest = split k s in
    if nat_eq (code c) k
    then "" ∷ rest
    else elim rest [ [] ↦ String.◌∷◌ c "" ∷ [] | part ∷ parts ↦ String.◌∷◌ c part ∷ parts ]

-- `separator.join(parts)`
unfoldable pub join : String → List String → String
join separator [] = ""
join separator (part ∷ []) = part
join separator (part ∷ parts) = part <> (separator <> join separator parts)

-- `str.isspace` of a character.
unfoldable pub is_space : ℕ → Bool
is_space k =
    (leb 9 k && leb k 13)
    || (leb 28 k && leb k 32)
    || nat_eq k 133
    || nat_eq k 160
    || nat_eq k 5760
    || (leb 8192 k && leb k 8202)
    || nat_eq k 8232
    || nat_eq k 8233
    || nat_eq k 8239
    || nat_eq k 8287
    || nat_eq k 12288

unfoldable pub lstrip : String → String
lstrip String.[] = ""
lstrip (String.◌∷◌ c s) = if is_space (code c) then lstrip s else String.◌∷◌ c s

unfoldable pub rstrip : String → String
rstrip String.[] = ""
rstrip (String.◌∷◌ c s) =
    let rest = rstrip s in if is_space (code c) && rest == "" then "" else String.◌∷◌ c rest

-- `s.strip()`
unfoldable pub strip : String → String
strip s = rstrip (lstrip s)

-- `s.count(c) <= 1`
unfoldable pub at_most_one : ℕ → String → Bool
at_most_one k String.[] = true
at_most_one k (String.◌∷◌ c s) = if nat_eq (code c) k then not (has k s) else at_most_one k s

-- `s.startswith(c)`, and `s[1:]`.
abbrev pub begins : ℕ → String → Bool
begins k String.[] = false
begins k (String.◌∷◌ c s) = nat_eq (code c) k

abbrev pub tail : String → String
tail String.[] = ""
tail (String.◌∷◌ c s) = s

abbrev lower_code : ℕ → ℕ
lower_code k = if leb 65 k && leb k 90 then k + 32 else k

-- `s.lower() == word`, of a word of the letters that only ASCII letters are lowered to.
unfoldable pub matches_lower : String → String → Bool
matches_lower String.[] String.[] = true
matches_lower String.[] (String.◌∷◌ d word) = false
matches_lower (String.◌∷◌ c s) String.[] = false
matches_lower (String.◌∷◌ c s) (String.◌∷◌ d word) =
    nat_eq (lower_code (code c)) (code d) && matches_lower s word

drop_end_all : (s : String) → drop_end (count s) s ≡ ""
unfolding drop_end
drop_end_all String.[] = refl
drop_end_all (String.◌∷◌ c s) = ground (arith, length-cons c s)

pub drop_end-append : (s t : String) → drop_end (count t) (s <> t) ≡ s
unfolding drop_end
drop_end-append String.[] t = rw (nil-append t) (drop_end_all t)
drop_end-append (String.◌∷◌ c s) t =
    rw (cons-append c s t) (ground (arith, drop_end-append s t, length-append s t))

ends_with_self : (t : String) → ends_with t t ≡ true
unfolding ends_with
ends_with_self String.[] = refl
ends_with_self (String.◌∷◌ d t) = ground (arith, eq_refl (String.◌∷◌ d t))

pub ends_with-append : (s t : String) → ends_with (s <> t) t ≡ true
unfolding ends_with
ends_with-append String.[] t = rw (nil-append t) (ends_with_self t)
ends_with-append (String.◌∷◌ c s) t = rw (cons-append c s t) (ground (arith, ends_with-append s t))

pub ends_with-drop_end : (s t : String) → ends_with s t ≡ true → s ≡ drop_end (count t) s <> t
unfolding ends_with drop_end
ends_with-drop_end String.[] t h = rw (nil-append t) (sym ((eq_iff t "").0 h))
ends_with-drop_end (String.◌∷◌ c s) t h = elim (Bool-cases (String.◌∷◌ c s == t)) [
  | inl e ↦
      let same = (eq_iff (String.◌∷◌ c s) t).0 e in
      let whole = String.◌∷◌ c s in
      sym (
        ap (λ x. drop_end (count x) whole <> x) (sym same)
        ∙ ap (λ x. x <> whole) (drop_end_all whole)
        ∙ nil-append whole)
  | inr e ↦
      let rest = ends_with-drop_end s t (ground (arith, e, h)) in
      let short : leb (count t) (count s) ≡ true =
        ground (arith, ap count rest, length-append (drop_end (count t) s) t) in
      rw (short, cons-append c (drop_end (count t) s) t) (ap (String.◌∷◌ c) rest)
]
