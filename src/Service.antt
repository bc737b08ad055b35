-- ===== src/Service.antt =====
-- atasks/commands/service.py, `aiomain`: how a worker sets its namespaces up, serves, and cleans up.
-- What it calls in the other modules, the modules of the scenario, the watchdogs and the health
-- endpoint are the operations of `Services`, any of which may raise an `Exception`; `S` is their
-- state.
pub mod Cleanup
pub mod HealthHttp
pub mod Specs
pub mod Watchdog
pub mod Main
use atasks.Prelude.{
  String, Bool, true, false, not, ◌&&◌, ◌||◌, Option, none, some, List, [], ◌∷◌, ◌++◌, ◌==◌,
  is_some, if◌then◌else◌, ℕ, ◌+◌, ltb,
}
use atasks.Prelude.Lists.{contains}
use atasks.Errors.{Exec, Outcome, returned, raised, for_each, continue, ◌>>=◌, ◌>>◌}

pub data Mode : Type 0 where
  client server loopback : Mode

-- The value of one `-N`, as parsed. `overrides` tells whether one of the four options of a router
-- was given.
pub record NamespaceSpec : Type 0 where
  pub name : String
  pub mode : Mode
  pub overrides : Bool

pub record Options : Type 0 where
  pub namespaces : List NamespaceSpec
  pub scenario : List String
  pub health_http : Bool
  pub self_watchdog : Bool
  pub systemd_watchdog : Bool

pub record Services (S : Type 0) : Type 0 where
  pub new_codec : String → Exec S (Unit {0})
  pub new_transport : NamespaceSpec → Exec S (Unit {0})
  pub connect : String → Exec S (Unit {0})
  pub new_router : NamespaceSpec → Exec S (Unit {0})
  -- Of the transport that `get_transport` finds, if any.
  pub is_connected : String → S → Bool
  pub disconnect : String → Exec S (Unit {0})
  pub activate : String → Exec S (Unit {0})
  pub deactivate : String → Exec S (Unit {0})
  pub get_router : String → Exec S (Unit {0})
  pub start_health_http : Exec S (Unit {0})
  pub cleanup_health_http : Exec S (Unit {0})
  pub start_watchdog : Exec S (Unit {0})
  pub stop_watchdog : Exec S (Unit {0})
  pub start_systemd_watchdog : Exec S (Unit {0})
  pub cancel_systemd_watchdog : Exec S (Unit {0})
  -- A module of the scenario, and whether it has an `aiomain`.
  pub load : String → Exec S Bool
  -- The given number of those are awaited together.
  pub gather : ℕ → Exec S (Unit {0})
  -- Until a signal sets `exit_run`.
  pub listen : Exec S (Unit {0})

-- The services, and the local variables that the `finally` blocks read.
pub record Running (S : Type 0) : Type 0 where
  pub services : S
  pub health_runner : Bool
  pub self_watchdog : Bool
  pub systemd_watchdog_task : Bool

-- `try: method` with `finally: cleanup`; what the cleanup raises replaces what was raised.
abbrev pub finally : {S A : Type 0} → Exec S A → Exec S (Unit {0}) → Exec S A
finally method cleanup s =
    let (result, s') = method s in
    let (cleaned, s'') = cleanup s' in (continue cleaned (λ _ t. (result, t)) s'')

-- Where the router is activated.
abbrev pub is_server : Mode → Bool
is_server client = false
is_server server = true
is_server loopback = true

unfoldable pub server_namespaces : List NamespaceSpec → List String
server_namespaces [] = []
server_namespaces (ns ∷ rest) =
    let names = server_namespaces rest in if is_server ns.mode then ns.name ∷ names else names

-- The keys of `transports`, in order; the second list has those that are there.
unfoldable pub transport_names : List NamespaceSpec → List String → List String
transport_names [] names = names
transport_names (ns ∷ rest) names =
    transport_names rest (if contains ns.name names then names else names ++ ns.name ∷ [])

abbrev is_listening : Mode → Bool
is_listening server = true
is_listening _ = false

unfoldable pub any_server : List NamespaceSpec → Bool
any_server [] = false
any_server (ns ∷ rest) = is_listening ns.mode || any_server rest

unfoldable pub should_listen : Options → Bool
should_listen o = any_server o.namespaces || o.health_http || o.self_watchdog || o.systemd_watchdog

module _ {S : Type 0} (services : Services S) where
  abbrev on_services : {A : Type 0} → Exec S A → Exec (Running S) A
  on_services method r = let (result, s) = method r.services in (result, record r { services = s })

  abbrev when : Bool → Exec (Running S) (Unit {0}) → Exec (Running S) (Unit {0})
  when test method r = if test then method r else (returned tt, r)

  unfoldable pub disconnect_one : NamespaceSpec → Exec (Running S) (Unit {0})
  disconnect_one ns r =
      when (services.is_connected ns.name r.services) (on_services (services.disconnect ns.name)) r

  -- `_disconnect_connected_transports`
  unfoldable pub disconnect_connected_transports : List NamespaceSpec → Exec (Running S) (Unit {0})
  disconnect_connected_transports specs = for_each specs disconnect_one

  -- What `except Exception` does after a failed `connect`, `some false` being returned.
  abbrev give_up :
      List NamespaceSpec
      → Outcome (Unit {0})
      → Exec (Running S) (Option Bool)
      → Exec (Running S) (Option Bool)
  give_up specs (returned _) rest = rest
  give_up specs (raised _) rest =
      disconnect_connected_transports specs >>= λ _ r. (returned (some false), r)

  -- The loop over the namespaces that are left, and what comes after it.
  unfoldable pub set_up :
      List NamespaceSpec
      → List NamespaceSpec
      → Exec (Running S) (Option Bool)
      → Exec (Running S) (Option Bool)
  set_up specs [] body = body
  set_up specs (ns ∷ rest) body =
      on_services (services.new_codec ns.name) >> on_services (services.new_transport ns) >> (λ r.
        let (result, r') = on_services (services.connect ns.name) r in
        give_up specs result
          (when ns.overrides (on_services (services.new_router ns)) >> set_up specs rest body) r')

  abbrev set_health_runner : Bool → Exec (Running S) (Unit {0})
  set_health_runner value r = (returned tt, record r { health_runner = value })

  abbrev set_self_watchdog : Bool → Exec (Running S) (Unit {0})
  set_self_watchdog value r = (returned tt, record r { self_watchdog = value })

  abbrev set_systemd_watchdog_task : Bool → Exec (Running S) (Unit {0})
  set_systemd_watchdog_task value r = (returned tt, record r { systemd_watchdog_task = value })

  -- The number of the modules that have an `aiomain`.
  unfoldable pub load_scenario : List String → ℕ → Exec (Running S) ℕ
  load_scenario [] futures r = (returned futures, r)
  load_scenario (file ∷ files) futures r =
      (on_services (services.load file) >>= λ has_aiomain.
      load_scenario files (if has_aiomain then futures + 1 else futures))
        r

  -- The inner `try`: until the scenario is done and, for a server, a signal came.
  unfoldable pub serve : Options → ℕ → Exec (Running S) (Unit {0})
  serve options futures = do
    when options.systemd_watchdog
        (on_services services.start_systemd_watchdog >> set_systemd_watchdog_task true)
    when (ltb 0 futures) (on_services (services.gather futures))
    when (should_listen options) (on_services services.listen)

  unfoldable pub stop_serving : Options → Exec (Running S) (Unit {0})
  stop_serving options = do
    λ r. when r.systemd_watchdog_task (on_services services.cancel_systemd_watchdog) r
    for_each (server_namespaces options.namespaces) (λ name. on_services (services.deactivate name))

  -- The outer `try`.
  unfoldable pub work : Options → Exec (Running S) (Unit {0})
  work options = do
    when options.health_http (on_services services.start_health_http >> set_health_runner true)
    when options.self_watchdog (set_self_watchdog true >> on_services services.start_watchdog)
    for_each (transport_names options.namespaces [])
        (λ name. on_services (services.get_router name))
    futures ← load_scenario options.scenario 0
    for_each (server_namespaces options.namespaces) (λ name. on_services (services.activate name))
    finally (serve options futures) (stop_serving options)

  -- Its `finally`.
  unfoldable pub clean_up : Options → Exec (Running S) (Unit {0})
  clean_up options = do
    λ r. when r.self_watchdog (on_services services.stop_watchdog) r
    λ r. when r.health_runner (on_services services.cleanup_health_http) r
    disconnect_connected_transports options.namespaces

  -- `health_runner = None` and its two companions.
  abbrev set_nothing : Exec (Running S) (Unit {0})
  set_nothing r = (
    returned tt,
    record r { health_runner = false; self_watchdog = false; systemd_watchdog_task = false },
  )

  unfoldable pub aiomain : Options → Exec (Running S) (Option Bool)
  aiomain options =
      set_up options.namespaces options.namespaces
        (set_nothing >> finally (work options) (clean_up options) >>= λ _ r. (returned none, r))
