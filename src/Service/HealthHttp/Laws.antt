-- ===== src/Service/HealthHttp/Laws.antt =====
-- What `_parse_health_http` accepts, and how it reads it.
use Prim.Native.Char.{char}
use text.Mathlib.TextLemmas.{cons-append}
use atasks.Prelude.{
  ℕ, ◌≤◌, String, ◌<>◌, ◌≡◌, refl, true, false, Option, none, some, ◌==◌, arith, Bool-cases, inl,
  inr,
}
use atasks.Prelude.Text.{strip, has, before, after, begins}
use atasks.Errors.{Outcome, Outcome-cases, returned, raised}
use atasks.Service.HealthHttp.{
  Integer, pos, negsuc, Address, host_and_port, checked_port, with_host, parse_stripped,
  parse_health_http,
}

module _ (int : String → Option Integer) where
  IsAddress : Address → Type 0
  IsAddress a =
      (1 ≤ a.port) × (a.port ≤ 65535) × ((a.host == "") ≡ false) × (begins b'/' a.path ≡ true)

  checked_port-bounds :
      (i : Option Integer) (port : ℕ) → checked_port i ≡ returned port → (1 ≤ port) × (port ≤ 65535)
  checked_port-bounds none port h = absurd (ground (arith, h))
  checked_port-bounds (some (negsuc n)) port h = absurd (ground (arith, h))
  checked_port-bounds (some (pos n)) port h = (ground (arith, h), ground (arith, h))

  with_host-bounds :
      (path : String) (o : Outcome (String × String)) (a : Address)
      → begins b'/' path ≡ true
      → with_host int path o ≡ returned a
      → IsAddress a
  unfolding IsAddress
  with_host-bounds path (raised e) a p h = absurd (ground (arith, h))
  with_host-bounds path (returned (host, value)) a p h =
      elim (Outcome-cases (checked_port (int value))) [
        | inr (x, e) ↦ absurd (ground (arith, e, h))
        | inl (port, e) ↦
            let b = checked_port-bounds (int value) port e in
            let same : a ≡ record { host = host; port = port; path = path } =
              ground (arith, e, h) in
            rw same (b.0, b.1, ground (arith, e, h), p)
      ]

  -- What is accepted has a host, a port from 1 to 65535, and a path that begins with a slash.
  pub parse_health_http-bounds :
      (value : String) (a : Address)
      → parse_health_http int value ≡ returned a
      → (1 ≤ a.port) × (a.port ≤ 65535) × ((a.host == "") ≡ false) × (begins b'/' a.path ≡ true)
  unfolding parse_health_http parse_stripped IsAddress
  parse_health_http-bounds value a h =
      let v = strip value in
      elim (Bool-cases (has b'/' v)) [
        | inl e ↦
            with_host-bounds ("/" <> after b'/' v) (host_and_port (before b'/' v)) a
              (rw (cons-append (char b'/' tt) "" (after b'/' v)) refl) (ground (arith, e, h))
        | inr e ↦ with_host-bounds "/" (host_and_port (before b'/' v)) a refl (ground (arith, e, h))
      ]
