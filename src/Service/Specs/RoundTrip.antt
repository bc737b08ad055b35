-- ===== src/Service/Specs/RoundTrip.antt =====
-- The specification of a namespace that is written out, and read back.
use Prim.Native.Char.{Char, char}
use atasks.Prelude.{
  String, ◌<>◌, ◌≡◌, refl, ◌∙◌, ap, Bool, true, false, not, ◌&&◌, Option, none, List, [], ◌∷◌, ◌++◌,
  ◌==◌, eq_iff, arith, Bool-cases, inl, inr, sym,
}
use mathlib.Core.List.{append-nil, append_assoc}
use atasks.Prelude.Lists.{contains, contains-append, Distinct}
use atasks.Prelude.Dict
use atasks.Prelude.Dict.{Dict, contains-keys}
use atasks.Prelude.Text.{has, split, join, lstrip, rstrip, strip, is_space}
use atasks.Prelude.Text.Parts.{before-append, after-append, has-append, has-one, nonempty-append}
use atasks.Prelude.Text.Splits.{split-join, free_of, starts_clean, strip-append, rstrip-one}
use atasks.Errors.{returned}
use atasks.Service.HealthHttp.{Integer}
use atasks.Service.Specs.{spec_keys, read_item, read_items, read_raw, spec_of, parse_namespace_spec}

abbrev equals : Char
equals = char b'=' tt

abbrev comma : Char
comma = char b',' tt

-- `key=value`
abbrev pub item : String → String → String
item key value = key <> ("=" <> value)

abbrev pub items : Dict String → List String
items [] = []
items ((key, value) ∷ raw) = item key value ∷ items raw

-- No comma, and no space at its ends.
abbrev pub is_clean : String → Bool
is_clean value = not (has b',' value) && lstrip value == value && rstrip value == value

abbrev pub are_clean : Dict String → Bool
are_clean [] = true
are_clean ((key, value) ∷ raw) = contains key spec_keys && is_clean value && are_clean raw

abbrev all_of : (String → Bool) → List String → Bool
all_of p [] = true
all_of p (x ∷ xs) = p x && all_of p xs

all_of-contains :
    (p : String → Bool) (xs : List String) (x : String)
    → all_of p xs ≡ true
    → contains x xs ≡ true
    → p x ≡ true
all_of-contains p [] x h c = cc
all_of-contains p (y ∷ ys) x h c = elim (Bool-cases (y == x)) [
  | inl e ↦ ap p (sym ((eq_iff y x).0 e)) ∙ ground (arith, h)
  | inr e ↦ all_of-contains p ys x (ground (arith, h)) (ground (arith, c, e))
]

abbrev is_key : String → Bool
is_key key =
    not (has b',' key)
    && not (has b'=' key)
    && starts_clean key
    && strip key == key
    && not (key == "")

spec_keys-is_key : (key : String) → contains key spec_keys ≡ true → is_key key ≡ true
unfolding has strip lstrip rstrip is_space
spec_keys-is_key key c = all_of-contains is_key spec_keys key refl c

clean-strip : (value : String) → is_clean value ≡ true → strip value ≡ value
unfolding strip
clean-strip value v =
    let l : lstrip value ≡ value = ground (arith, v, eq_iff (lstrip value) value) in
    ap rstrip l ∙ ground (arith, v, eq_iff (rstrip value) value)

item-strip :
    (key value : String)
    → contains key spec_keys ≡ true
    → is_clean value ≡ true
    → strip (item key value) ≡ item key value
unfolding is_space
item-strip key value c v =
    strip-append key ("=" <> value) (ground (arith, spec_keys-is_key key c))
      (rstrip-one equals value refl (ground (arith, v, eq_iff (rstrip value) value)))
      (nonempty-append "=" value refl)

read_item-item :
    (key value : String) (raw : Dict String)
    → contains key spec_keys ≡ true
    → is_clean value ≡ true
    → Dict.lookup key raw ≡ none
    → read_item (strip (item key value)) raw ≡ returned (Dict.insert key value raw)
unfolding read_item
read_item-item key value raw c v l =
    let k = spec_keys-is_key key c in
    let whole = item-strip key value c v in
    let key_strip : strip key ≡ key = ground (arith, k, eq_iff (strip key) key) in
    rw
      (
        whole,
        before-append b'=' key equals value refl (ground (arith, k)),
        after-append b'=' key equals value refl (ground (arith, k)),
        key_strip,
        clean-strip value v,
      )
      (ground (
        arith,
        c,
        k,
        l,
        nonempty-append key ("=" <> value),
        has-append b'=' key ("=" <> value),
        has-one b'=' equals value,
      ))

insert-new :
    (key value : String) (raw : Dict String)
    → Dict.lookup key raw ≡ none
    → Dict.insert key value raw ≡ raw ++ (key, value) ∷ []
unfolding Dict.insert Dict.lookup
insert-new key value [] l = refl
insert-new key value ((k, w) ∷ raw) l = ground (arith, l, insert-new key value raw)

keys-snoc :
    (raw : Dict String) (key value : String)
    → Dict.keys (raw ++ (key, value) ∷ []) ≡ Dict.keys raw ++ key ∷ []
unfolding Dict.keys
keys-snoc [] key value = refl
keys-snoc ((k, v) ∷ raw) key value = ap (λ ks. k ∷ ks) (keys-snoc raw key value)

-- No key of the one dictionary is in the other.
abbrev is_new : Dict String → Dict String → Bool
is_new [] raw = true
is_new ((key, _) ∷ more) raw = not (contains key (Dict.keys raw)) && is_new more raw

is_new_nil : (more : Dict String) → is_new more [] ≡ true
unfolding Dict.keys
is_new_nil [] = refl
is_new_nil ((key, value) ∷ more) = is_new_nil more

is_new-snoc :
    (more raw : Dict String) (key value : String)
    → is_new more raw ≡ true
    → contains key (Dict.keys more) ≡ false
    → is_new more (raw ++ (key, value) ∷ []) ≡ true
unfolding Dict.keys
is_new-snoc [] raw key value h c = refl
is_new-snoc ((k, v) ∷ more) raw key value h c = ground (
  arith,
  h,
  c,
  is_new-snoc more raw key value,
  keys-snoc raw key value,
  contains-append k (Dict.keys raw) (key ∷ []),
  eq_iff key k,
  eq_iff k key,
)

read_items-items :
    (more raw : Dict String)
    → are_clean more ≡ true
    → Distinct (Dict.keys more)
    → is_new more raw ≡ true
    → read_items (items more) raw ≡ returned (raw ++ more)
unfolding read_items Dict.keys
read_items-items [] raw h d n = rw (append-nil raw) refl
read_items-items ((key, value) ∷ more) raw h d n =
    let fresh : Dict.lookup key raw ≡ none = ground (arith, n, contains-keys key raw) in
    rw
      (
        read_item-item key value raw (ground (arith, h)) (ground (arith, h)) fresh,
        insert-new key value raw fresh,
      )
      (read_items-items more (raw ++ (key, value) ∷ []) (ground (arith, h)) d.1
          (is_new-snoc more raw key value (ground (arith, n)) d.0)
        ∙ rw (append_assoc raw ((key, value) ∷ []) more) refl)

both : (a b : Bool) → (a && b) ≡ true → (a ≡ true) × (b ≡ true)
both a b h = ground (arith, h)

has-item :
    (key value : String)
    → contains key spec_keys ≡ true
    → is_clean value ≡ true
    → has b',' (item key value) ≡ false
has-item key value c v =
    let k : has b',' key ≡ false = ground (arith, spec_keys-is_key key c) in
    let w : has b',' value ≡ false = ground (arith, v) in
    rw (has-append b',' key ("=" <> value), has-one b',' equals value, k, w) refl

free_of-items : (raw : Dict String) → are_clean raw ≡ true → free_of b',' (items raw) ≡ true
free_of-items [] h = refl
free_of-items ((key, value) ∷ raw) h =
    let (first, more) = both (contains key spec_keys && is_clean value) (are_clean raw) h in
    let (c, v) = both (contains key spec_keys) (is_clean value) first in
    rw (has-item key value c v, free_of-items raw more) refl

read_raw-items :
    (raw : Dict String)
    → are_clean raw ≡ true
    → Distinct (Dict.keys raw)
    → read_raw (join "," (items raw)) ≡ returned raw
unfolding read_raw read_items
read_raw-items [] h d = unfold join split strip lstrip rstrip read_item in refl
read_raw-items ((key, value) ∷ raw) h d =
    ap (λ parts. read_items parts [])
      (split-join b',' comma (item key value) (items raw) refl
        (free_of-items ((key, value) ∷ raw) h))
    ∙ read_items-items ((key, value) ∷ raw) [] h d (is_new_nil ((key, value) ∷ raw))

module _ (int : String → Option Integer) where
  -- Values for any of the known keys, each key at most once, in any order, without commas and without
  -- spaces at the ends of a value, are read back from the specification that lists them: they are
  -- what its options are made of, and no other text of it is.
  pub parse_namespace_spec-items :
      (raw : Dict String)
      → are_clean raw ≡ true
      → Distinct (Dict.keys raw)
      → parse_namespace_spec int (join "," (items raw)) ≡ spec_of int raw
  unfolding parse_namespace_spec
  parse_namespace_spec-items raw h d = rw (read_raw-items raw h d) refl
