-- ===== src/Tests/ServiceRuns.antt =====
-- Runs of `aiomain`, on services that keep which transports are connected.
use atasks.Prelude.{
  String, ◌≡◌, refl, Bool, true, false, List, [], ◌∷◌, ◌==◌, if◌then◌else◌, none, some, arith,
  eq_refl,
}
use atasks.Errors.{Exec, for_each, returned, pure, raise, other, transport_error}
use atasks.Service.{
  Mode, server, loopback, client, NamespaceSpec, Options, Services, Running, aiomain, set_up,
  clean_up, work, load_scenario, server_namespaces, transport_names, stop_serving, serve,
  should_listen, any_server, disconnect_connected_transports, disconnect_one,
}
use atasks.Service.Cleanup.{IsTidy, aiomain-disconnects}

abbrev pub Links : Type 0
Links = String → Bool

abbrev set_link : String → Bool → Exec Links (Unit {0})
set_link name value s = (returned tt, λ x. if x == name then value else s x)

abbrev connect_link : String → Exec Links (Unit {0})
connect_link name = if name == "unreachable" then raise transport_error else set_link name true

abbrev load_module : String → Exec Links Bool
load_module file = if file == "broken" then raise (other "ImportError") else pure true

abbrev pub links : Services Links
links = record {
  new_codec = λ _. pure tt;
  new_transport = λ _. pure tt;
  connect = connect_link;
  new_router = λ _. pure tt;
  is_connected = λ name s. s name;
  disconnect = λ name. set_link name false;
  get_router = λ _. pure tt;
  activate = λ _. pure tt;
  deactivate = λ _. pure tt;
  start_health_http = pure tt;
  cleanup_health_http = pure tt;
  start_watchdog = pure tt;
  stop_watchdog = pure tt;
  start_systemd_watchdog = pure tt;
  cancel_systemd_watchdog = pure tt;
  load = load_module;
  gather = λ _. pure tt;
  listen = pure tt;
}

pub links-IsTidy : IsTidy links
links-IsTidy = record {
  disconnects = λ name s. refl;
  disconnected = λ name s. ground (arith, eq_refl name);
  keeps = λ name other s h. ground (arith, h);
  stops = λ s. refl;
  cleans = λ s. refl;
  makes_codec = λ name s. refl;
  makes_transport = λ ns s. refl;
  makes_router = λ ns s. refl;
}

abbrev spec : String → Mode → NamespaceSpec
spec name mode = record { name = name; mode = mode; overrides = true }

abbrev options : List NamespaceSpec → List String → Options
options namespaces scenario = record {
  namespaces = namespaces;
  scenario = scenario;
  health_http = true;
  self_watchdog = true;
  systemd_watchdog = true;
}

abbrev pub idle : Running Links
idle = record {
  services = λ _. false;
  health_runner = false;
  self_watchdog = false;
  systemd_watchdog_task = false;
}

abbrev pair : List NamespaceSpec
pair = spec "default" server ∷ spec "reports" loopback ∷ []

aiomain-disconnects_example :
    (aiomain links (options pair ("jobs" ∷ "broken" ∷ [])) idle).1.services "reports" ≡ false
aiomain-disconnects_example =
    aiomain-disconnects links links-IsTidy (options pair ("jobs" ∷ "broken" ∷ [])) idle "reports"
      refl

-- A worker that serves returns; one that cannot connect returns `false`.
aiomain-served : (aiomain links (options pair ("jobs" ∷ [])) idle).0 ≡ returned none
unfolding aiomain set_up clean_up work load_scenario for_each server_namespaces transport_names
    stop_serving serve should_listen any_server disconnect_connected_transports disconnect_one
aiomain-served = refl

aiomain-unreachable :
    (aiomain links (options (spec "default" server ∷ spec "unreachable" client ∷ []) []) idle).0
    ≡ returned (some false)
unfolding aiomain set_up disconnect_connected_transports for_each disconnect_one
aiomain-unreachable = refl
