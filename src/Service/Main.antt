-- ===== src/Service/Main.antt =====
-- atasks/commands/service.py, `main`: from the arguments to the end of the event loop. What
-- `argparse` makes of the arguments is a parameter, but for the values of `-N`, which it gives to
-- `_parse_namespace_spec`; the durations of the watchdog go unread to `_SelfWatchdog`.
pub mod Prepared
pub mod Ends
use atasks.Prelude.{
  ℕ, zero, suc, String, ◌<>◌, Bool, true, false, not, ◌&&◌, ◌||◌, Option, none, some, List, [], ◌∷◌,
  ◌==◌, is_some, if◌then◌else◌,
}
use atasks.Prelude.Dict
use atasks.Prelude.Dict.{Dict}
use atasks.Prelude.Text.{starts_with}
use atasks.Errors.{
  Exec, Outcome, returned, raised, exception, other, lift, refuse, then_returns, ◌>>=◌, ◌>>◌,
}
use atasks.Service.{Options, Services, Running, finally, aiomain}
use atasks.Service.HealthHttp.{Integer, Address}
use atasks.Service.Specs.{Spec, parse_namespace_spec, parse_specs, check_names}
use atasks.Service.Specs.Names.{namespace_specs}

-- `namespaces` are the values of `-N`, if there is one.
pub record Arguments : Type 0 where
  pub scenario : List String
  pub namespaces : Option (List String)
  pub health_http : Option Address
  pub self_watchdog : Bool
  pub systemd_watchdog : Bool
  pub verbosity : ℕ
  pub loggers : Option (List String)

-- `any(arg == option or arg.startswith(option + '=') ...)`
unfoldable pub gives : String → List String → Bool
gives option [] = false
gives option (arg ∷ args) = arg == option || starts_with arg (option <> "=") || gives option args

abbrev pub gives_timing : List String → Bool
gives_timing args =
    gives "--self-watchdog-period" args
    || gives "--self-watchdog-timeout" args
    || gives "--self-watchdog-kill-after" args

abbrev pub check_timing : List String → Arguments → Outcome (Unit {0})
check_timing args options =
    if not options.self_watchdog && gives_timing args
    then refuse "self-watchdog timing options require --self-watchdog"
    else returned tt

pub data Level : Type 0 where
  notset error warning info debug : Level

-- The list of levels at `options['verbosity']`.
abbrev pub level_of : ℕ → Outcome Level
level_of zero = returned notset
level_of (suc zero) = returned error
level_of (suc (suc zero)) = returned warning
level_of (suc (suc (suc zero))) = returned info
level_of (suc (suc (suc (suc zero)))) = returned debug
level_of (suc (suc (suc (suc (suc n))))) = raised (exception (other "IndexError"))

pub record LoggerConfig : Type 0 where
  pub handlers : List String
  pub propagate : Bool
  pub level : Level

abbrev pub selected : Option (List String) → List String
selected none = "atasks" ∷ []
selected (some loggers) = loggers

abbrev pub with_level : Option LoggerConfig → Level → LoggerConfig
with_level none level = record { handlers = "console" ∷ []; propagate = false; level = level }
with_level (some conf) level = record conf { level = level }

-- The loop over the loggers.
unfoldable pub configure_loggers : ℕ → List String → Dict LoggerConfig → Outcome (Dict LoggerConfig)
configure_loggers verbosity [] loggers = returned loggers
configure_loggers verbosity (logger ∷ rest) loggers = then_returns (level_of verbosity) λ level.
    configure_loggers verbosity rest
      (Dict.insert logger (with_level (Dict.lookup logger loggers) level) loggers)

pub data Loop : Type 0 where
  no_loop open_loop closed_loop : Loop

-- The process: its services, the loggers that `dictConfig` was given, and the event loop of `main`.
pub record Worker (S : Type 0) : Type 0 where
  pub running : Running S
  pub logging : Option (Dict LoggerConfig)
  pub loop : Loop

-- What `aiomain` is given.
abbrev pub options_of : Arguments → List Spec → Options
options_of args specs = record {
  namespaces = namespace_specs specs;
  scenario = args.scenario;
  health_http = is_some args.health_http;
  self_watchdog = args.self_watchdog;
  systemd_watchdog = args.systemd_watchdog;
}

module _ (parse_args : List String → Outcome Arguments) (int : String → Option Integer) where
  abbrev pub parse_given : Option (List String) → Outcome (Option (List Spec))
  parse_given none = returned none
  parse_given (some specs) = then_returns (parse_specs int specs) λ found. returned (some found)

  abbrev pub default_namespaces : Option (List Spec) → Outcome (List Spec)
  default_namespaces none =
      then_returns (parse_namespace_spec int "name=default") λ spec. returned (spec ∷ [])
  default_namespaces (some specs) = returned specs

  -- Until `dictConfig`; the arguments are those after the name of the program.
  unfoldable pub read_arguments : List String → Outcome (Arguments × List Spec × Dict LoggerConfig)
  read_arguments argv = then_returns (parse_args argv) λ args.
      then_returns (parse_given args.namespaces) λ given. then_returns (check_timing argv args) λ _.
        then_returns (default_namespaces given) λ specs. then_returns (check_names specs []) λ _.
          then_returns (configure_loggers args.verbosity (selected args.loggers) [])
            λ loggers. returned (args, specs, loggers)

  module _ {S : Type 0} (services : Services S) (shutdown_asyncgens : Exec S (Unit {0})) where
    abbrev pub run_in_loop : {A : Type 0} → Exec (Running S) A → Exec (Worker S) A
    run_in_loop method w = let (result, r) = method w.running in (result, record w { running = r })

    abbrev pub shut_down : Exec (Running S) (Unit {0})
    shut_down r =
        let (result, s) = shutdown_asyncgens r.services in (result, record r { services = s })

    abbrev pub begin_loop : Dict LoggerConfig → Exec (Worker S) (Unit {0})
    begin_loop loggers w = (returned tt, record w { logging = some loggers; loop = open_loop })

    abbrev pub close_loop : Exec (Worker S) (Unit {0})
    close_loop w = (returned tt, record w { loop = closed_loop })

    -- What `aiomain` returns is dropped.
    abbrev pub drop_result : {A : Type 0} → Outcome A → Exec (Worker S) (Unit {0})
    drop_result (returned _) w = (returned tt, w)
    drop_result (raised e) w = (raised e, w)

    -- From `dictConfig` on.
    unfoldable pub run_worker :
        Arguments → List Spec → Dict LoggerConfig → Exec (Worker S) (Unit {0})
    run_worker args specs loggers = begin_loop loggers >> λ w.
        let (result, w') =
          finally (run_in_loop (aiomain services (options_of args specs)))
            (run_in_loop shut_down >> close_loop) w in
        drop_result result w'

    unfoldable pub main : List String → Exec (Worker S) (Unit {0})
    main argv =
        lift (read_arguments argv) >>= λ (args, specs, loggers). run_worker args specs loggers
