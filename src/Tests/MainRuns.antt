-- ===== src/Tests/MainRuns.antt =====
-- Runs of `main` of the `service` command.
use atasks.Prelude.{String, ◌≡◌, refl, false, none, some, Option, List, [], ◌∷◌}
use atasks.Prelude.Dict
use atasks.Prelude.Text.{strip, lstrip, rstrip, is_space, has, before, after, split, starts_with}
use atasks.Errors.{Outcome, returned, raised, exception, value_error, pure}
use atasks.Service.HealthHttp.{Integer}
use atasks.Service.Specs.{
  parse_namespace_spec, parse_specs, read_raw, read_items, read_item, spec_of, check_names,
}
use atasks.Service.Main.{Arguments, Worker, no_loop, check_timing, gives, read_arguments, main}
use atasks.Service.Main.Ends.{Shuts, MainEnds, main-ends}
use atasks.Tests.ServiceRuns.{Links, links, links-IsTidy, idle}

abbrev int : String → Option Integer
int _ = none

-- Each argument is the value of a `-N`.
abbrev parse_args : List String → Outcome Arguments
parse_args argv = returned (record {
  scenario = "jobs" ∷ [];
  namespaces = some argv;
  health_http = none;
  self_watchdog = false;
  systemd_watchdog = false;
  verbosity = 3;
  loggers = some ("atasks" ∷ "jobs" ∷ []);
})

abbrev waiting : Worker Links
waiting = record { running = idle; logging = none; loop = no_loop }

links-Shuts : Shuts links (pure tt)
links-Shuts = record { returns = λ s. refl; keeps = λ name s h. h }

main-ends_example :
    let m = main parse_args int links (pure tt) ("name=a,mode=server" ∷ "name=b" ∷ []) waiting in
    MainEnds parse_args int links (pure tt) ("name=a,mode=server" ∷ "name=b" ∷ []) waiting m.0 m.1
main-ends_example =
    main-ends parse_args int links (pure tt) links-IsTidy links-Shuts
      ("name=a,mode=server" ∷ "name=b" ∷ []) waiting

-- No `-N` is given.
abbrev none_given : Arguments
none_given = record {
  scenario = [];
  namespaces = none;
  health_http = none;
  self_watchdog = false;
  systemd_watchdog = false;
  verbosity = 1;
  loggers = none;
}

abbrev parse_none : List String → Outcome Arguments
parse_none argv = returned none_given

-- Options that only the watchdog has are refused without it, but not where they are abbreviated.
timing_refused :
    read_arguments parse_none int ("--self-watchdog-period=5" ∷ [])
    ≡ raised (exception (value_error "self-watchdog timing options require --self-watchdog"))
unfolding read_arguments gives starts_with
timing_refused = refl

abbreviation_accepted : check_timing ("--self-watchdog-per=5" ∷ []) none_given ≡ returned tt
unfolding gives starts_with
abbreviation_accepted = refl

twice_refused :
    read_arguments parse_args int ("name=a" ∷ "name=a" ∷ [])
    ≡ raised (exception (value_error "namespace given more than once via -N/--namespace"))
unfolding read_arguments parse_specs parse_namespace_spec read_raw read_items read_item spec_of
    strip lstrip rstrip is_space split has before after gives starts_with check_names Dict.lookup
    Dict.insert
twice_refused = refl
