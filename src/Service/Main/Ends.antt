-- ===== src/Service/Main/Ends.antt =====
-- How `main` ends.
use atasks.Prelude.{String, ◌≡◌, refl, ◌⊎◌, inl, inr, true, false, Option, some, List}
use atasks.Prelude.Lists.{contains}
use atasks.Prelude.Dict.{Dict}
use atasks.Errors.{Exec, Outcome, Outcome-cases, PyException, returned, raised}
use atasks.Service.{Services, aiomain}
use atasks.Service.Cleanup.{IsTidy, spec_names, aiomain-disconnects}
use atasks.Service.HealthHttp.{Integer}
use atasks.Service.Specs.{Spec}
use atasks.Service.Specs.Names.{namespace_specs}
use atasks.Service.Main.{
  Arguments, LoggerConfig, closed_loop, Worker, options_of, read_arguments, run_worker, main,
}
use atasks.Service.Main.Prepared.{IsPrepared, read_arguments-IsPrepared}

-- What `main` relies on: that the asynchronous generators of the loop can be shut down, which
-- connects no transport.
pub record Shuts {S : Type 0} (services : Services S) (shutdown_asyncgens : Exec S (Unit {0}))
    : Type 0 where
  pub returns : (s : S) → (shutdown_asyncgens s).0 ≡ returned tt
  pub keeps :
      (name : String) (s : S)
      → services.is_connected name s ≡ false
      → services.is_connected name (shutdown_asyncgens s).1 ≡ false

-- What an exception or the return of `aiomain` makes of `main`.
abbrev pub without_result : {A : Type 0} → Outcome A → Outcome (Unit {0})
without_result (returned _) = returned tt
without_result (raised e) = raised e

module _ (parse_args : List String → Outcome Arguments) (int : String → Option Integer) {S : Type 0}
    (services : Services S) (shutdown_asyncgens : Exec S (Unit {0})) where
  -- The arguments were refused, or one worker was run and ended.
  abbrev pub MainEnds : List String → Worker S → Outcome (Unit {0}) → Worker S → Type 0
  MainEnds argv w result w' =
      ((e : PyException) × (read_arguments parse_args int argv ≡ raised e)
        × (result ≡ raised e)
        × (w' ≡ w))
      ⊎ ((args : Arguments) × (specs : List Spec) × (loggers : Dict LoggerConfig) × IsPrepared
            parse_args int argv args specs loggers
          × (result ≡ without_result (aiomain services (options_of args specs) w.running).0)
          × (w'.logging ≡ some loggers)
          × (w'.loop ≡ closed_loop)
          × ((name : String)
              → contains name (spec_names (namespace_specs specs)) ≡ true
              → services.is_connected name w'.running.services ≡ false))

  run_worker_lem :
      (args : Arguments) (specs : List Spec) (loggers : Dict LoggerConfig) (w : Worker S)
      → Shuts services shutdown_asyncgens
      → let (result, w') =
          run_worker parse_args int services shutdown_asyncgens args specs loggers w in
        let (came, r) = aiomain services (options_of args specs) w.running in
        (result ≡ without_result came)
        × (w'.logging ≡ some loggers)
        × (w'.loop ≡ closed_loop)
        × (w'.running.services ≡ (shutdown_asyncgens r.services).1)
  unfolding run_worker
  run_worker_lem args specs loggers w shuts =
      let (came, r) = aiomain services (options_of args specs) w.running in
      elim (Outcome-cases came) [
        | inl (a, e) ↦ rw (e, shuts.returns r.services) (refl, refl, refl, refl)
        | inr (x, e) ↦ rw (e, shuts.returns r.services) (refl, refl, refl, refl)
      ]

  -- `main` either raises and changes nothing, where the arguments are refused, or runs one worker on
  -- what it has read: namespaces of different names, timing options of the watchdog under their full
  -- names, of which alone this is said, only where the watchdog is asked for, the selected loggers and no others at the level of the verbosity. However
  -- the worker ends, the loop is closed then and no transport of its namespaces is connected; `main`
  -- raises what the worker raised, and returns where it returned. The services are tidy, and the
  -- generators of the loop can be shut down.
  pub main-ends :
      IsTidy services
      → Shuts services shutdown_asyncgens
      → (argv : List String) (w : Worker S)
      → let m = main parse_args int services shutdown_asyncgens argv w in MainEnds argv w m.0 m.1
  unfolding main
  main-ends tidy shuts argv w = elim (Outcome-cases (read_arguments parse_args int argv)) [
    | inr (e, p) ↦ rw p (inl (e, refl, refl, refl))
    | inl ((args, specs, loggers), p) ↦
        let (came, logged, closed, services_end) = run_worker_lem args specs loggers w shuts in
        rw p (
          inr (
            args,
            specs,
            loggers,
            read_arguments-IsPrepared parse_args int argv (args, specs, loggers) p,
            came,
            logged,
            closed,
            λ name h. rw services_end (
                shuts.keeps name _
                  (aiomain-disconnects services tidy (options_of args specs) w.running name h)),
          ))
  ]
