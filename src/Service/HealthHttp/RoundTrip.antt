-- ===== src/Service/HealthHttp/RoundTrip.antt =====
-- An address of the health endpoint that is written out, and read back.
use Prim.Native.Char.{Char, char}
use text.Mathlib.TextLemmas.{append_assoc, append-nil, cons-append, nil-append, cons-ne-nil}
use atasks.Prelude.{
  ℕ, ◌≤◌, String, ◌<>◌, ◌≡◌, refl, ◌∙◌, ap, Bool, true, false, not, ◌&&◌, ◌||◌, Option, none, some,
  ◌==◌, eq_iff, arith, nat_eq, if◌then◌else◌,
}
use atasks.Prelude.Text.{strip, has, before, after, begins}
use atasks.Prelude.Text.Parts.{
  has-append, has-one, has-last, before-append, after-append, before_all, begins-append,
  at_most_one-append, at_most_one_none, nonempty-append,
}
use atasks.Errors.{returned}
use atasks.Service.HealthHttp.{
  Integer, pos, is_forbidden, host_and_port, parse_stripped, parse_health_http, remainder_port,
}

abbrev slash : Char
slash = char b'/' tt

abbrev colon : Char
colon = char b':' tt

abbrev open_bracket : Char
open_bracket = char b'[' tt

abbrev close_bracket : Char
close_bracket = char b']' tt

abbrev port_part : Option String → String
port_part none = ""
port_part (some port) = ":" <> port

abbrev path_part : Option String → String
path_part none = ""
path_part (some path) = "/" <> path

-- A host stands in brackets where the test says so.
abbrev host_part : Bool → String → String
host_part true host = "[" <> (host <> "]")
host_part false host = host

abbrev or_text : String → Option String → String
or_text text none = text
or_text text (some s) = s

-- No character of a text ends the part that it stands in.
abbrev is_plain : String → Bool
is_plain s = not (is_forbidden s || has b'/' s)

abbrev is_host : Bool → String → Bool
is_host true host = is_plain host && not (host == "") && not (has b']' host)
is_host false host =
    is_plain host && not (host == "") && not (has b':' host) && not (begins b'[' host)

abbrev is_port : Option String → Bool
is_port none = true
is_port (some port) = is_plain port && not (has b':' port)

abbrev is_path : Option String → Bool
is_path none = true
is_path (some path) = not (is_forbidden path)

bracket-eq :
    (host rest : String)
    → ("[" <> (host <> "]")) <> rest ≡ String.◌∷◌ open_bracket (host <> ("]" <> rest))
bracket-eq host rest =
    ap (λ x. x <> rest)
      (cons-append open_bracket "" (host <> "]")
        ∙ ap (String.◌∷◌ open_bracket) (nil-append (host <> "]")))
    ∙ cons-append open_bracket (host <> "]") rest
    ∙ ap (String.◌∷◌ open_bracket) (append_assoc host "]" rest)

-- What stands between the brackets, and after them.
host_and_port-bracket :
    (host rest : String)
    → has b']' host ≡ false
    → host_and_port (("[" <> (host <> "]")) <> rest) ≡ remainder_port host rest
unfolding host_and_port has before after
host_and_port-bracket host rest h = rw (bracket-eq host rest) (
    ground (
      arith,
      h,
      has-append b']' host ("]" <> rest),
      has-one b']' close_bracket rest,
      before-append b']' host close_bracket rest refl,
      after-append b']' host close_bracket rest refl,
    ))

host_and_port-part :
    (six : Bool) (host : String) (port : Option String)
    → is_host six host ≡ true
    → is_port port ≡ true
    → host_and_port (host_part six host <> port_part port) ≡ returned (host, or_text "80" port)
unfolding host_and_port
host_and_port-part false host none h p =
    rw (append-nil host) (ground (arith, h, at_most_one_none b':' host))
host_and_port-part false host (some port) h p = ground (
  arith,
  h,
  p,
  begins-append b'[' host (":" <> port),
  at_most_one-append b':' host colon port refl,
  before-append b':' host colon port refl,
  after-append b':' host colon port refl,
  has-append b':' host (":" <> port),
  has-one b':' colon port,
)
host_and_port-part true host none h p = host_and_port-bracket host "" (ground (arith, h))
host_and_port-part true host (some port) h p =
    rw
      (
        host_and_port-bracket host (":" <> port) (ground (arith, h)),
        cons-append colon "" port,
        nil-append port,
      )
      (ground (arith, eq_iff (String.◌∷◌ colon port) "", cons-ne-nil colon port))

host_part-has :
    (k : ℕ) (six : Bool) (host : String)
    → has k host ≡ false
    → nat_eq b'[' k ≡ false
    → nat_eq b']' k ≡ false
    → has k (host_part six host) ≡ false
host_part-has k false host h a b = h
host_part-has k true host h a b = ground (
  arith,
  h,
  a,
  b,
  has-one k open_bracket (host <> "]"),
  has-append k host "]",
  has-last k close_bracket,
)

port_part-has :
    (k : ℕ) (port : Option String)
    → has k (or_text "" port) ≡ false
    → nat_eq b':' k ≡ false
    → has k (port_part port) ≡ false
unfolding has
port_part-has k none h a = refl
port_part-has k (some port) h a = ground (arith, h, a, has-one k colon port)

path_part-has :
    (k : ℕ) (path : Option String)
    → has k (or_text "" path) ≡ false
    → nat_eq b'/' k ≡ false
    → has k (path_part path) ≡ false
unfolding has
path_part-has k none h a = refl
path_part-has k (some path) h a = ground (arith, h, a, has-one k slash path)

host_part-nonempty :
    (six : Bool) (host : String) → (host == "") ≡ false → (host_part six host == "") ≡ false
host_part-nonempty false host h = h
host_part-nonempty true host h = nonempty-append "[" (host <> "]") refl

-- The two sides of the slash.
before-path :
    (address : String) (path : Option String)
    → has b'/' address ≡ false
    → (before b'/' (address <> path_part path) ≡ address)
      × ((if has b'/' (address <> path_part path)
            then "/" <> after b'/' (address <> path_part path)
            else "/")
          ≡ "/" <> or_text "" path)
before-path address none h = rw (append-nil address) (before_all b'/' address h, ground (arith, h))
before-path address (some path) h = (
  before-append b'/' address slash path refl h,
  ground (
    arith,
    after-append b'/' address slash path refl h,
    has-append b'/' address ("/" <> path),
    has-one b'/' slash path,
  ),
)

abbrev pub address_text : Bool → String → Option String → Option String → String
address_text six host port path = (host_part six host <> port_part port) <> path_part path

has-text :
    (six : Bool) (host : String) (port path : Option String) (k : ℕ)
    → has k host ≡ false
    → has k (or_text "" port) ≡ false
    → has k (or_text "" path) ≡ false
    → nat_eq b'[' k || nat_eq b']' k || nat_eq b':' k || nat_eq b'/' k ≡ false
    → has k (address_text six host port path) ≡ false
has-text six host port path k h p q d = ground (
  arith,
  d,
  has-append k (host_part six host <> port_part port) (path_part path),
  has-append k (host_part six host) (port_part port),
  host_part-has k six host h (ground (arith, d)) (ground (arith, d)),
  port_part-has k port p (ground (arith, d)),
  path_part-has k path q (ground (arith, d)),
)

-- What the tests say of a host, in brackets or not.
is_host-plain :
    (six : Bool) (host : String)
    → is_host six host ≡ true
    → (is_plain host ≡ true) × ((host == "") ≡ false)
is_host-plain false host h = (ground (arith, h), ground (arith, h))
is_host-plain true host h = (ground (arith, h), ground (arith, h))

is_port-plain : (port : Option String) → is_port port ≡ true → is_plain (or_text "" port) ≡ true
unfolding has
is_port-plain none h = refl
is_port-plain (some port) h = ground (arith, h)

is_path-plain :
    (path : Option String) → is_path path ≡ true → is_forbidden (or_text "" path) ≡ false
unfolding has
is_path-plain none h = refl
is_path-plain (some path) h = ground (arith, h)

is_forbidden-text :
    (six : Bool) (host : String) (port path : Option String)
    → is_host six host ≡ true
    → is_port port ≡ true
    → is_path path ≡ true
    → is_forbidden (address_text six host port path) ≡ false
is_forbidden-text six host port path h p q =
    let a = is_host-plain six host h in
    let b = is_port-plain port p in
    let c = is_path-plain path q in
    let none_of : (k : ℕ)
        → has k host ≡ false
        → has k (or_text "" port) ≡ false
        → has k (or_text "" path) ≡ false
        → (nat_eq b'[' k || nat_eq b']' k || nat_eq b':' k || nat_eq b'/' k) ≡ false
        → has k (address_text six host port path) ≡ false =
      has-text six host port path in
    ground (
      arith,
      none_of b'?' (ground (arith, a)) (ground (arith, b)) (ground (arith, c)) refl,
      none_of b'#' (ground (arith, a)) (ground (arith, b)) (ground (arith, c)) refl,
      none_of b'@' (ground (arith, a)) (ground (arith, b)) (ground (arith, c)) refl,
    )

module _ (int : String → Option Integer) where
  -- A host that is not empty and has none of the characters of the syntax, or in brackets one that may
  -- have colons but no closing bracket, `/`, `?`, `#` or `@`, with a port or none, and a path without
  -- `?`, `#` and `@` or none, is read back: the host without the brackets, the number
  -- that `int` reads from the port, 80 by default, and the path with its slash. The text that is put
  -- together has no space around it, and the port is from 1 to 65535.
  pub parse_health_http-text :
      (six : Bool) (host : String) (port path : Option String) (number : ℕ)
      → is_host six host ≡ true
      → is_port port ≡ true
      → is_path path ≡ true
      → strip (address_text six host port path) ≡ address_text six host port path
      → int (or_text "80" port) ≡ some (pos number)
      → 1 ≤ number
      → number ≤ 65535
      → parse_health_http int (address_text six host port path)
        ≡ returned (record { host = host; port = number; path = "/" <> or_text "" path })
  unfolding parse_health_http parse_stripped
  parse_health_http-text six host port path number h p q stripped read low high =
      let address = host_part six host <> port_part port in
      let a = is_host-plain six host h in
      let b = is_port-plain port p in
      let full =
        nonempty-append (host_part six host) (port_part port) (host_part-nonempty six host a.1) in
      let clear : has b'/' address ≡ false = ground (
        arith,
        has-append b'/' (host_part six host) (port_part port),
        host_part-has b'/' six host (ground (arith, a)) refl refl,
        port_part-has b'/' port (ground (arith, b)) refl,
      ) in
      let sides = before-path address path clear in
      rw (stripped, sides.0, sides.1, host_and_port-part six host port h p, read)
        (ground (
          arith,
          is_forbidden-text six host port path h p q,
          nonempty-append address (path_part path) full,
          full,
          a.1,
          low,
          high,
        ))
