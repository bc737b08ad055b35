-- ===== src/Tests/CommandRuns.antt =====
-- Runs of what the `service` command reads, and of the watchdog.
use atasks.Prelude.{
  ◌≤◌, String, ◌≡◌, refl, true, false, Option, none, some, List, [], ◌∷◌, ◌++◌, ◌==◌, arith,
  if◌then◌else◌,
}
use atasks.Prelude.Dict
use atasks.Prelude.Text.{
  strip, lstrip, rstrip, is_space, has, before, after, at_most_one, begins, split, join,
  matches_lower,
}
use atasks.Errors.{returned, raised, exception, value_error}
use atasks.Service.{server}
use atasks.Service.HealthHttp.{
  Integer, pos, negsuc, Address, host_and_port, parse_stripped, parse_health_http,
}
use atasks.Service.HealthHttp.Laws.{parse_health_http-bounds}
use atasks.Service.HealthHttp.RoundTrip.{parse_health_http-text}
use atasks.Service.Specs.{
  Spec, loopback_transport, read_item, read_items, read_raw, spec_of, parse_namespace_spec,
  parse_specs, check_names, configure, without_empty,
}
use atasks.Service.Specs.RoundTrip.{parse_namespace_spec-items}
use atasks.Service.Watchdog.{
  Action, advance, acknowledge, stop, Watchdog, started, left, sleeping, aborting, missed, run,
}
use atasks.Service.Watchdog.Laws.{
  is_aborting, answered_probes, unanswered, run-stop, run-unanswered,
}

abbrev int : String → Option Integer
int s =
    if s == "80"
    then some (pos 80)
    else if s == "8080"
    then some (pos 8080)
    else if s == "0"
    then some (pos 0)
    else if s == "-1"
    then some (negsuc 0)
    else none

abbrev local : Address
local = record { host = "::1"; port = 8080; path = "/live" }

local-read : parse_health_http int " [::1]:8080/live " ≡ returned local
unfolding parse_health_http parse_stripped strip rstrip lstrip is_space has before host_and_port
    after
local-read = refl

parse_health_http-bounds_example :
    (1 ≤ 8080) × (8080 ≤ 65535) × (("::1" == "") ≡ false) × (begins b'/' "/live" ≡ true)
parse_health_http-bounds_example = parse_health_http-bounds int " [::1]:8080/live " local local-read

parse_health_http-text_example : parse_health_http int "[::1]:8080/live" ≡ returned local
unfolding has strip rstrip lstrip is_space
parse_health_http-text_example =
    parse_health_http-text int true "::1" (some "8080") (some "live") 8080 refl refl refl refl refl
      (omega arith) (omega arith)

port_too_small :
    parse_health_http int "localhost:0"
    ≡ raised (exception (value_error "health HTTP port must be between 1 and 65535"))
unfolding parse_health_http parse_stripped strip rstrip lstrip is_space has before host_and_port
    after at_most_one
port_too_small = refl

abbrev raw : Dict.Dict String
raw = ("name", "orders") ∷ ("mode", "server") ∷ ("collect-await-frames", "No") ∷ []

parse_namespace_spec-items_example :
    parse_namespace_spec int "name=orders,mode=server,collect-await-frames=No" ≡ spec_of int raw
unfolding has strip rstrip lstrip is_space Dict.keys join
parse_namespace_spec-items_example =
    parse_namespace_spec-items int raw refl (refl, (refl, (refl, tt)))

abbrev orders : Spec
orders = record {
  name = "orders";
  mode = server;
  transport = loopback_transport;
  url = none;
  hostname = none;
  max_trace_depth = none;
  trace_filter_modules = none;
  collect_await_frames = some false;
}

raw-orders : spec_of int raw ≡ returned orders
unfolding spec_of Dict.lookup matches_lower
raw-orders = refl

orders-configured :
    configure int (some ("name=orders, mode=server,collect-await-frames=No" ∷ []))
    ≡ returned (orders ∷ [])
unfolding configure parse_specs parse_namespace_spec read_raw read_items split read_item strip
    rstrip lstrip is_space has before Dict.lookup Dict.insert spec_of after matches_lower
    check_names without_empty
orders-configured = refl

abbrev shutdown : List Action
shutdown = advance false ∷ acknowledge ∷ advance false ∷ advance false ∷ advance false ∷ []

abbrev overdue : Watchdog
overdue = record { stopped = false; acknowledgement = some false; thread = missed }

run-stop_example :
    (is_aborting (run (stop ∷ shutdown) overdue).thread ≡ false)
    × ((run (stop ∷ shutdown) overdue).thread ≡ left)
run-stop_example = run-stop overdue shutdown refl

run-unanswered_example :
    ((run (answered_probes 2) started).thread ≡ sleeping)
    × ((run (answered_probes 2 ++ unanswered false) started).thread ≡ aborting)
run-unanswered_example = run-unanswered 2 started false refl refl
