-- ===== src/Prelude/Text/Decimal.antt =====
-- Numbers in decimal: `'%d' % n`, and the digits of a fixed width that `strftime` writes.
use Prim.Native.Nat.{ℕ, zero, suc, ◌/◌, ◌%◌}
use Prim.Native.Char.{Char, code}
use Prim.Native.String.{String, ◌++◌ as ◌<>◌, count}
use mathlib.Core.Path.{◌≡◌, refl}
use mathlib.Core.Bool.{false}
use native.Mathlib.Omega.{arith}
use text.Mathlib.TextLemmas.{append_assoc, nil-append, length-append, length-cons}
use atasks.Prelude.Tests.{nat_eq, ltb, if◌then◌else◌}
use atasks.Prelude.Text.{has}
use atasks.Prelude.Text.Parts.{has-append}

abbrev pub digit : ℕ → Char
digit zero = "0"
digit (suc zero) = "1"
digit (suc (suc zero)) = "2"
digit (suc (suc (suc zero))) = "3"
digit (suc (suc (suc (suc zero)))) = "4"
digit (suc (suc (suc (suc (suc zero))))) = "5"
digit (suc (suc (suc (suc (suc (suc zero)))))) = "6"
digit (suc (suc (suc (suc (suc (suc (suc zero))))))) = "7"
digit (suc (suc (suc (suc (suc (suc (suc (suc zero)))))))) = "8"
digit (suc (suc (suc (suc (suc (suc (suc (suc (suc n))))))))) = "9"

-- The last digits of a number, as many as the width.
unfoldable pub padded : ℕ → ℕ → String
padded zero n = ""
padded (suc width) n = padded width (n / 10) <> String.◌∷◌ (digit (n % 10)) ""

-- The digits of a number in front of a text; a number is enough fuel for itself.
unfoldable pub decimal_onto : ℕ → ℕ → String → String
decimal_onto zero n s = String.◌∷◌ (digit n) s
decimal_onto (suc fuel) n s =
    let longer = decimal_onto fuel (n / 10) (String.◌∷◌ (digit (n % 10)) s) in
    if ltb n 10 then String.◌∷◌ (digit n) s else longer

unfoldable pub decimal : ℕ → String
unfolding decimal_onto
decimal n = decimal_onto n n ""

-- A digit is no line break.
digit_unbroken : (n : ℕ) → nat_eq (code (digit n)) 10 ≡ false
digit_unbroken (suc (suc (suc (suc (suc (suc (suc (suc (suc n))))))))) = refl
digit_unbroken _ = refl

decimal_onto-unbroken :
    (fuel n : ℕ) (s : String) → has 10 s ≡ false → has 10 (decimal_onto fuel n s) ≡ false
unfolding decimal_onto has
decimal_onto-unbroken zero n s h = ground (arith, digit_unbroken n)
decimal_onto-unbroken (suc fuel) n s h = ground (
  arith,
  digit_unbroken n,
  digit_unbroken (n % 10),
  decimal_onto-unbroken fuel (n / 10) (String.◌∷◌ (digit (n % 10)) s),
)

pub decimal-unbroken : (n : ℕ) → has 10 (decimal n) ≡ false
unfolding decimal has
decimal-unbroken n = decimal_onto-unbroken n n "" refl

pub padded-unbroken : (width n : ℕ) → has 10 (padded width n) ≡ false
unfolding padded has
padded-unbroken zero n = refl
padded-unbroken (suc width) n = ground (
  arith,
  digit_unbroken (n % 10),
  padded-unbroken width (n / 10),
  has-append 10 (padded width (n / 10)) (String.◌∷◌ (digit (n % 10)) ""),
)

-- The first digits of a longer one.
pub padded-add :
    (width n : ℕ)
    → padded (suc (suc (suc width))) n ≡ padded width (n / 1000) <> padded 3 (n % 1000)
unfolding padded
padded-add width n =
    let thousands : n / 10 / 10 / 10 ≡ n / 1000 = omega arith in
    let hundreds : n / 10 / 10 % 10 ≡ n % 1000 / 10 / 10 % 10 = omega arith in
    let tens : n / 10 % 10 ≡ n % 1000 / 10 % 10 = omega arith in
    let ones : n % 10 ≡ n % 1000 % 10 = omega arith in
    rw (thousands, hundreds, tens, ones) (simp (append_assoc, nil-append))

pub count-padded : (width n : ℕ) → count (padded width n) ≡ width
unfolding padded
count-padded zero n = refl
count-padded (suc width) n = omega (
  arith,
  count-padded width (n / 10),
  length-append (padded width (n / 10)) (String.◌∷◌ (digit (n % 10)) ""),
  length-cons (digit (n % 10)) "",
)

decimal_pid : decimal 40317 ≡ "40317"
unfolding decimal decimal_onto
decimal_pid = refl

padded_month : padded 2 7 ≡ "07"
unfolding padded
padded_month = refl
