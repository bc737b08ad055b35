-- ===== src/Service/Main/Prepared.antt =====
-- What `main` has read when it goes on to the event loop.
use mathlib.Core.Path.{subst}
use atasks.Prelude.{
  ◌∙◌, ℕ, String, ◌≡◌, refl, false, not, ◌&&◌, ◌⊎◌, Option, none, some, List, [], ◌∷◌, arith,
  eq_iff, inl, if◌then◌else◌,
}
use atasks.Prelude.Lists.{contains, Distinct}
use atasks.Prelude.Dict
use atasks.Prelude.Dict.{Dict, lookup-insert, lookup-nil}
use atasks.Errors.{Outcome, returned, raised, then_returns}
use atasks.Service.Cleanup.{spec_names}
use atasks.Service.HealthHttp.{Integer}
use atasks.Service.Specs.{Spec, parse_specs, check_names, configure}
use atasks.Service.Specs.Names.{namespace_specs, configure-Distinct}
use atasks.Service.Main.{
  Arguments, gives_timing, check_timing, Level, level_of, LoggerConfig, selected, with_level,
  configure_loggers, parse_given, default_namespaces, read_arguments,
}

-- A chain that returns goes through what its first part returned.
then_returns_elim {ℓ κ} :
    {A B : Type ℓ} {C : Type κ} (m : Outcome A) (f : A → Outcome B) {b : B}
    → then_returns m f ≡ returned b
    → ((a : A) → m ≡ returned a → f a ≡ returned b → C)
    → C
then_returns_elim (returned a) f h go = go a refl h
then_returns_elim (raised e) f h go = absurd (cc (h))

returned-inj {ℓ} : {A : Type ℓ} (a b : A) → returned a ≡ returned b → a ≡ b
returned-inj a b h = cc

-- A dictionary of loggers that all have what a level makes of a new one.
abbrev Uniform : Level → Dict LoggerConfig → Type 0
Uniform level d =
    (name : String)
    → (Dict.lookup name d ≡ none) ⊎ (Dict.lookup name d ≡ some (with_level none level))

with_level-Uniform :
    (o : Option LoggerConfig) (level : Level)
    → (o ≡ none) ⊎ (o ≡ some (with_level none level))
    → with_level o level ≡ with_level none level
with_level-Uniform none level h = refl
with_level-Uniform (some conf) level h = ground arith

insert-Uniform :
    (logger : String) (level : Level) (d : Dict LoggerConfig)
    → Uniform level d
    → Uniform level (Dict.insert logger (with_level none level) d)
insert-Uniform logger level d h name =
    ground (arith, h name, lookup-insert name logger (with_level none level) d)

configure_loggers-lookup :
    (verbosity : ℕ) (level : Level) (names : List String) (d : Dict LoggerConfig)
    {loggers : Dict LoggerConfig}
    → level_of verbosity ≡ returned level
    → Uniform level d
    → configure_loggers verbosity names d ≡ returned loggers
    → (name : String)
    → Dict.lookup name loggers
      ≡ (if contains name names then some (with_level none level) else Dict.lookup name d)
unfolding configure_loggers
configure_loggers-lookup verbosity level [] d l u h name = ground (arith, h)
configure_loggers-lookup verbosity level (logger ∷ names) d {loggers} l u h name =
    let same = with_level-Uniform (Dict.lookup logger d) level (u logger) in
    let d' = Dict.insert logger (with_level none level) d in
    let h' : configure_loggers verbosity names d' ≡ returned loggers = rw (l, same) at h in
    let ih =
      configure_loggers-lookup verbosity level names d' l (insert-Uniform logger level d u) h'
        name in
    ground (arith, ih, lookup-insert name logger (with_level none level) d, eq_iff logger name)

-- What the process goes on with: the arguments as they were read, namespaces of different names,
-- and timing options only where the watchdog is asked for; the loggers that were selected, and no
-- others, write to the console, at the level of the verbosity, and do not propagate.
pub record IsPrepared (parse_args : List String → Outcome Arguments) (int : String → Option Integer)
    (argv : List String) (args : Arguments) (specs : List Spec) (loggers : Dict LoggerConfig)
    : Type 0 where
  pub parsed : parse_args argv ≡ returned args
  pub configured : configure int args.namespaces ≡ returned specs
  pub distinct : Distinct (spec_names (namespace_specs specs))
  pub timed : (not args.self_watchdog && gives_timing argv) ≡ false
  pub logged :
      (level : Level)
      → level_of args.verbosity ≡ returned level
      → (name : String)
      → Dict.lookup name loggers
        ≡ (if contains name (selected args.loggers) then some (with_level none level) else none)

module _ (parse_args : List String → Outcome Arguments) (int : String → Option Integer) where
  configure-parts :
      (given : Option (List String)) {parsed : Option (List Spec)} {specs : List Spec}
      → parse_given parse_args int given ≡ returned parsed
      → default_namespaces parse_args int parsed ≡ returned specs
      → check_names specs [] ≡ returned tt
      → configure int given ≡ returned specs
  unfolding configure parse_specs
  configure-parts none p d c = ground (arith, p, d, c)
  configure-parts (some given) p d c = ground (arith, p, d, c)

  pub read_arguments-IsPrepared :
      (argv : List String) (r : Arguments × List Spec × Dict LoggerConfig)
      → read_arguments parse_args int argv ≡ returned r
      → IsPrepared parse_args int argv r.0 r.1 r.2
  unfolding read_arguments
  read_arguments-IsPrepared argv r h = then_returns_elim (parse_args argv) _ h λ args parsed h.
      then_returns_elim (parse_given parse_args int args.namespaces) _ h λ given p h.
        then_returns_elim (check_timing argv args) _ h λ _ timed h.
          then_returns_elim (default_namespaces parse_args int given) _ h λ specs d h.
            then_returns_elim (check_names specs []) _ h λ _ c h.
              then_returns_elim (configure_loggers args.verbosity (selected args.loggers) []) _ h
                λ loggers l h.
                  let found = configure-parts args.namespaces p d c in
                  subst (λ x. IsPrepared parse_args int argv x.0 x.1 x.2)
                    (returned-inj (args, specs, loggers) r h)
                    record {
                      parsed = parsed;
                      configured = found;
                      distinct = (configure-Distinct int args.namespaces specs found).0;
                      timed = ground (arith, timed);
                      logged = λ level v name.
                          configure_loggers-lookup args.verbosity level (selected args.loggers) [] v
                            (λ x. inl (lookup-nil x)) l name
                          ∙ rw (lookup-nil name) refl;
                    }
