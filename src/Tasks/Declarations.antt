-- ===== src/Tasks/Declarations.antt =====
-- atasks/tasks.py, the decorators over all namespaces: each looks up the router of its namespace, or
-- makes it, and registers with it. Routers are known by the numbers that the namespaces hold.
pub mod Tables
pub mod Program
use atasks.Prelude.{
  ℕ, String, ◌≡◌, Bool, true, false, Option, none, some, List, [], ◌∷◌, ltb, nat_eq, if◌then◌else◌,
}
use atasks.Hop.{Kind, rpc, queue, broadcast}
use atasks.Errors.{Exec, Outcome, returned, raised}
use atasks.Namespaces.{Namespaces, namespaces, get_router}
use atasks.Router.{Router}
use atasks.Router
use atasks.Tasks.{Coroutine, decorate}

-- `transports` are those that a new router finds.
pub record Application (V T : Type 0) : Type 0 where
  pub namespaces : Namespaces
  pub routers : ℕ → Router V T
  pub transports : ℕ → T

-- The arguments of a decorator.
pub record DecoratorArguments (V : Type 0) : Type 0 where
  pub kind : Kind
  pub name : Option String
  pub namespace : String
  pub options : V

-- What a decorator returns: itself with its arguments kept, or the stub.
pub data Decorated (V : Type 0) : Type 0 where
  partial : DecoratorArguments V → Decorated V
  stub : Decorated V

abbrev pub stub_of : {V : Type 0} → Outcome (Unit {0}) → Outcome (Decorated V)
stub_of (returned _) = returned stub
stub_of (raised e) = raised e

module _ {V T : Type 0} where
  abbrev pub set_router : (ℕ → Router V T) → ℕ → Router V T → ℕ → Router V T
  set_router routers n r i = if nat_eq i n then r else routers i

  -- `get_router(namespace)`; the constructor runs where the number is a new one.
  unfoldable pub router_of : String → Application V T → ℕ × Application V T
  router_of namespace app =
      let (n, s) = get_router namespace app.namespaces in
      (
        n,
        record app {
          namespaces = s;
          routers =
              if ltb n app.namespaces.next
              then app.routers
              else set_router app.routers n (Router.new namespace app.transports);
        },
      )

  unfoldable pub declare : DecoratorArguments V → Coroutine V → Exec (Application V T) (Unit {0})
  declare settings coro app =
      let (n, app') = router_of settings.namespace app in
      let (result, r) =
        decorate settings.kind settings.name settings.options coro (app'.routers n) in
      (result, record app' { routers = set_router app'.routers n r })

  -- What the three decorators have in common.
  unfoldable pub apply_decorator :
      DecoratorArguments V → Option (Coroutine V) → Exec (Application V T) (Decorated V)
  apply_decorator settings none app = (returned (partial settings), app)
  apply_decorator settings (some coro) app =
      let (result, app') = declare settings coro app in (stub_of result, app')

  abbrev pub decorator :
      Kind
      → Option (Coroutine V)
      → Option String
      → String
      → V
      → Exec (Application V T) (Decorated V)
  decorator kind coro name namespace options =
      apply_decorator
        (record { kind = kind; name = name; namespace = namespace; options = options }) coro

  abbrev pub atask :
      Option (Coroutine V) → Option String → String → V → Exec (Application V T) (Decorated V)
  atask = decorator rpc

  abbrev pub atask_queue :
      Option (Coroutine V) → Option String → String → V → Exec (Application V T) (Decorated V)
  atask_queue = decorator queue

  abbrev pub atask_broadcast :
      Option (Coroutine V) → Option String → String → V → Exec (Application V T) (Decorated V)
  atask_broadcast = decorator broadcast

-- Before any declaration.
abbrev pub no_declarations : {V T : Type 0} → (ℕ → Router V T) → (ℕ → T) → Application V T
no_declarations routers transports = record {
  namespaces = namespaces;
  routers = routers;
  transports = transports;
}
