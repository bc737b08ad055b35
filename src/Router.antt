-- ===== src/Router.antt =====
-- atasks/router.py, the life of a `Router`: registration of atasks in the three registries of its
-- namespace, `activate` and `deactivate`. The transports are objects with an identity, `T` is the
-- state of one, and what happens to it goes by the methods `ops`.
pub mod Sets
pub mod Activation
pub mod Synced
pub mod Failure
use atasks.Prelude.{
  ℕ, String, ◌≡◌, Bool, true, false, Option, none, some, List, [], ◌∷◌, nat_eq, is_some,
  if◌then◌else◌,
}
use atasks.Prelude.Dict.{Dict}
use atasks.Hop.{Kind, rpc, queue, broadcast}
use atasks.Errors.{
  Exec, Outcome, returned, raised, exception, late_registration, for_each, ◌>>=◌, ◌>>◌, continue,
}
use atasks.Registry.{Manager}
use atasks.Registry
use atasks.Transport.{Methods}

-- The closure `_callback` of `_activate_request` and its two counterparts: it calls `_on_request`,
-- `_on_event` or `_on_broadcast` with the name.
pub record Callback : Type 0 where
  pub kind : Kind
  pub name : String

-- `self._activated`: the names that were subscribed, by kind.
pub record Activated : Type 0 where
  pub rpc_names : List String
  pub queue_names : List String
  pub broadcast_names : List String

abbrev pub nothing_activated : Activated
nothing_activated = record { rpc_names = []; queue_names = []; broadcast_names = [] }

abbrev pub activated_names : Activated → Kind → List String
activated_names a rpc = a.rpc_names
activated_names a queue = a.queue_names
activated_names a broadcast = a.broadcast_names

-- A router, the registries that its constructor put into its namespace, and the transports.
pub record Router (V T : Type 0) : Type 0 where
  pub namespace : String
  pub server : Option ℕ
  pub activated : Activated
  pub rpc_registry : Manager V
  pub queue_registry : Manager V
  pub broadcast_registry : Manager V
  pub transports : ℕ → T

abbrev pub server_eq : Option ℕ → Option ℕ → Bool
server_eq none none = true
server_eq (some a) (some b) = nat_eq a b
server_eq _ _ = false

module _ {V T : Type 0} where
  -- `Router(namespace)`
  unfoldable pub new : String → (ℕ → T) → Router V T
  unfolding Registry.new
  new namespace transports = record {
    namespace = namespace;
    server = none;
    activated = nothing_activated;
    rpc_registry = Registry.new namespace false;
    queue_registry = Registry.new namespace false;
    broadcast_registry = Registry.new namespace false;
    transports = transports;
  }

  abbrev pub registry : Router V T → Kind → Manager V
  registry r rpc = r.rpc_registry
  registry r queue = r.queue_registry
  registry r broadcast = r.broadcast_registry

  abbrev with_registry : Router V T → Kind → Manager V → Router V T
  with_registry r rpc m = record r { rpc_registry = m }
  with_registry r queue m = record r { queue_registry = m }
  with_registry r broadcast m = record r { broadcast_registry = m }

  -- `register_atask`, `register_atask_queue` and `register_atask_broadcast`, up to the stub.
  unfoldable pub register : Kind → String → V → V → Exec (Router V T) (Unit {0})
  register kind name coro options r =
      if is_some r.server
      then (raised (exception (late_registration name)), r)
      else let (result, m) =
          Registry.register name (("coro", coro) ∷ ("options", options) ∷ []) (registry r kind) in
        (result, with_registry r kind m)

  abbrev pub names : Router V T → Kind → List String
  names r kind = Registry.names (registry r kind)

  abbrev pub set_transport : Router V T → ℕ → T → Router V T
  set_transport r id t = record r { transports = λ i. if nat_eq i id then t else r.transports i }

  -- A method call on `self.server`. It is called where there is a server.
  abbrev on_server : Exec T (Unit {0}) → Exec (Router V T) (Unit {0})
  on_server method r = elim r.server [
    | none ↦ (returned tt, r)
    | some id ↦ let (result, t) = method (r.transports id) in (result, set_transport r id t)
  ]

  module _ (ops : Methods Callback T) where
    -- `_activate_request`, `_activate_queue` and `_activate_broadcast`.
    unfoldable pub activate_one : Kind → String → Exec (Router V T) (Unit {0})
    activate_one kind name =
        on_server (ops.register kind name (record { kind = kind; name = name }))

    -- `_deactivate_request`, `_deactivate_queue` and `_deactivate_broadcast`.
    unfoldable pub deactivate_one : Kind → String → Exec (Router V T) (Unit {0})
    deactivate_one kind name = on_server (ops.unregister kind name)

    abbrev update_activated : Activated → Exec (Router V T) (Unit {0})
    update_activated a r = (returned tt, record r { activated = a })

    abbrev set_server : Option ℕ → Exec (Router V T) (Unit {0})
    set_server server r = (returned tt, record r { server = server })

    -- The three loops of `deactivate`.
    unfoldable pub unsubscribe : Activated → Exec (Router V T) (Unit {0})
    unsubscribe a = do
      for_each a.rpc_names (deactivate_one rpc)
      for_each a.queue_names (deactivate_one queue)
      for_each a.broadcast_names (deactivate_one broadcast)

    unfoldable pub deactivate : Exec (Router V T) (Unit {0})
    deactivate r =
        if is_some r.server
        then (do unsubscribe r.activated; update_activated nothing_activated; set_server none) r
        else (returned tt, r)

    -- The three loops of `activate`.
    unfoldable pub subscribe : Activated → Exec (Router V T) (Unit {0})
    subscribe a = do
      for_each a.rpc_names (activate_one rpc)
      for_each a.queue_names (activate_one queue)
      for_each a.broadcast_names (activate_one broadcast)

    -- The names of the three registries.
    abbrev pub registered : Router V T → Activated
    registered r = record {
      rpc_names = names r rpc;
      queue_names = names r queue;
      broadcast_names = names r broadcast;
    }

    abbrev subscribe_registered : Exec (Router V T) (Unit {0})
    subscribe_registered r = (subscribe (registered r) >> update_activated (registered r)) r

    -- After the server is set: nothing more for `None`.
    unfoldable pub start : Option ℕ → Exec (Router V T) (Unit {0})
    start none = set_server none
    start (some id) = set_server (some id) >> subscribe_registered

    unfoldable pub activate : Option ℕ → Exec (Router V T) (Unit {0})
    activate server r =
        if server_eq r.server server
        then (returned tt, r)
        else if is_some r.server
        then (deactivate >> start server) r
        else start server r
