-- ===== src/Service/HealthHttp/Server.antt =====
-- atasks/commands/service.py, `_start_health_http`. What it calls in aiohttp are the operations of
-- `Web`, any of which may raise; `S` is their state.
use atasks.Prelude.{ℕ, String, ◌≡◌, refl, Bool, false, inl, inr, ◌==◌, if◌then◌else◌, ◌⊎◌}
use atasks.Errors.{Exec, Outcome, Outcome-cases, exception, other, returned, raised, ◌>>◌}
use atasks.Service.HealthHttp.{Address}

-- `runner` is that of `AppRunner`: the one application has the one route of the path.
pub record Web (S : Type 0) : Type 0 where
  pub import_web : Exec S (Unit {0})
  pub setup : String → Exec S (Unit {0})
  pub start_site : String → ℕ → Exec S (Unit {0})
  pub cleanup : Exec S (Unit {0})

module _ {S : Type 0} (web : Web S) where
  -- `except ImportError`; an import that raises something else is not caught.
  abbrev pub imported : Outcome (Unit {0}) → Outcome (Unit {0})
  imported (returned _) = returned tt
  imported (raised e) = elim e.class [
    | other name ↦ raised (if name == "ImportError" then exception (other "RuntimeError") else e)
    | _ ↦ raised e
  ]

  abbrev pub import_aiohttp : Exec S (Unit {0})
  import_aiohttp s = let (result, s') = web.import_web s in (imported result, s')

  -- `except Exception: await runner.cleanup(); raise`
  abbrev pub clean_up_raised : Outcome (Unit {0}) → Exec S (Unit {0})
  clean_up_raised (returned _) s = (returned tt, s)
  clean_up_raised (raised e) s = (web.cleanup >> λ t. (raised e, t)) s

  unfoldable pub start_health_http : Address → Exec S (Unit {0})
  start_health_http address = do
    import_aiohttp
    web.setup address.path
    λ s. let (result, s') = web.start_site address.host address.port s in clean_up_raised result s'

-- The endpoint listens from `start_site` to `cleanup` at most.
pub record IsListening {S : Type 0} (web : Web S) (listening : S → Bool) : Type 0 where
  pub imports : (s : S) → listening s ≡ false → listening (web.import_web s).1 ≡ false
  pub sets_up :
      (path : String) (s : S) → listening s ≡ false → listening (web.setup path s).1 ≡ false
  pub cleans : (s : S) → listening (web.cleanup s).1 ≡ false

module _ {S : Type 0} (web : Web S) (listening : S → Bool) (h : IsListening web listening) where
  clean_up_raised-closed :
      (o : Outcome (Unit {0})) (s : S)
      → ((clean_up_raised web o s).0 ≡ returned tt)
        ⊎ (listening (clean_up_raised web o s).1 ≡ false)
  clean_up_raised-closed (returned _) s = inl refl
  clean_up_raised-closed (raised e) s = elim (Outcome-cases (web.cleanup s).0) [
    | inl (u, c) ↦ inr (rw c (h.cleans s))
    | inr (x, c) ↦ inr (rw c (h.cleans s))
  ]

  -- A start that does not return leaves no endpoint that listens: it has cleaned up itself, since
  -- `aiomain` only cleans up what it was given.
  pub start_health_http-closed :
      (address : Address) (s : S)
      → listening s ≡ false
      → ((start_health_http web address s).0 ≡ returned tt)
        ⊎ (listening (start_health_http web address s).1 ≡ false)
  unfolding start_health_http
  start_health_http-closed address s closed =
      let s1 = (web.import_web s).1 in
      let c1 = h.imports s closed in
      elim (Outcome-cases (import_aiohttp web s).0) [
        | inr (x, e) ↦ inr (rw e c1)
        | inl (u, e) ↦
            let s2 = (web.setup address.path s1).1 in
            elim (Outcome-cases (web.setup address.path s1).0) [
              | inr (x, f) ↦ inr (rw (e, f) (h.sets_up address.path s1 c1))
              | inl (v, f) ↦
                  let site = web.start_site address.host address.port s2 in
                  rw (e, f) (clean_up_raised-closed site.0 site.1)
            ]
      ]
