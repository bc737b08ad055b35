-- ===== src/Tasks.antt =====
-- atasks/tasks.py: the decorators `atask`, `atask_queue` and `atask_broadcast`, which register a
-- coroutine under its name.
pub mod Declarations
use atasks.Prelude.{
  String, ◌<>◌, ◌≡◌, refl, ◌∙◌, true, false, Option, none, some, [], ◌∷◌, ◌++◌, arith, eq_iff,
}
use atasks.Prelude.Lists.{contains, contains-append}
use atasks.Hop.{Kind, rpc, queue, broadcast}
use atasks.Errors.{Exec, returned, raised, exception, registering_twice}
use atasks.Router.{Router, register, registry, names}
use atasks.Registry.Laws.{unite-register}
use atasks.Transport.{kind_eq}
use atasks.Router.Synced.{register_lem}

-- `coro.__module__` and `coro.__name__`.
pub record Coroutine (V : Type 0) : Type 0 where
  pub module_name : String
  pub function_name : String
  pub value : V

unfoldable pub task_name : {V : Type 0} → Option String → Coroutine V → String
task_name none coro = coro.module_name <> ("." <> coro.function_name)
task_name (some name) coro = name

kind_eq_self : (k : Kind) → kind_eq k k ≡ true
kind_eq_self rpc = refl
kind_eq_self queue = refl
kind_eq_self broadcast = refl

module _ {V T : Type 0} where
  -- Applied to a coroutine, with the name and the options given, if any.
  unfoldable pub decorate : Kind → Option String → V → Coroutine V → Exec (Router V T) (Unit {0})
  decorate kind name options coro = register kind (task_name name coro) coro.value options

  unite-decorate :
      (kind : Kind) (name : Option String) (options : V) (coro : Coroutine V) (r : Router V T)
      → (registry (decorate kind name options coro r).1 kind).unite ≡ (registry r kind).unite
  unfolding decorate register
  unite-decorate rpc name options coro r = ground (
    arith,
    unite-register (task_name name coro) (("coro", coro.value) ∷ ("options", options) ∷ [])
        r.rpc_registry,
  )
  unite-decorate queue name options coro r = ground (
    arith,
    unite-register (task_name name coro) (("coro", coro.value) ∷ ("options", options) ∷ [])
        r.queue_registry,
  )
  unite-decorate broadcast name options coro r = ground (
    arith,
    unite-register (task_name name coro) (("coro", coro.value) ∷ ("options", options) ∷ [])
        r.broadcast_registry,
  )

  -- On a router that is not active, a decorator registers a coroutine whose name is new, after the
  -- names that are there; a second coroutine of the same name, given or made of its module and its
  -- own name, is refused with `RegisteringTwice`, and the names stay.
  pub decorate_twice :
      (kind : Kind) (name name' : Option String) (options options' : V) (coro coro' : Coroutine V)
      (r : Router V T)
      → r.server ≡ none
      → (registry r kind).unite ≡ false
      → contains (task_name name coro) (names r kind) ≡ false
      → task_name name' coro' ≡ task_name name coro
      → ((decorate kind name options coro r).0 ≡ returned tt)
        × (names (decorate kind name options coro r).1 kind
            ≡ names r kind ++ task_name name coro ∷ [])
        × ((decorate kind name' options' coro' (decorate kind name options coro r).1).0
            ≡ raised (
                exception (
                  registering_twice
                    (registry (decorate kind name options coro r).1 kind).name
                    (task_name name coro))))
        × (names (decorate kind name' options' coro' (decorate kind name options coro r).1).1 kind
            ≡ names r kind ++ task_name name coro ∷ [])
  unfolding decorate
  decorate_twice kind name name' options options' coro coro' r idle strict fresh e =
      let n = task_name name coro in
      let r' = (register kind n coro.value options r).1 in
      let u = unite-decorate kind name options coro r ∙ strict in
      let l = register_lem kind n coro.value options r kind strict in
      let l' = register_lem kind n coro'.value options' r' kind u in
      let added : names r' kind ≡ names r kind ++ n ∷ [] =
        ground (arith, l, idle, fresh, kind_eq_self kind) in
      let held : contains n (names r' kind) ≡ true =
        rw added (ground (arith, contains-append n (names r kind) (n ∷ []), eq_iff n n)) in
      let idle' : r'.server ≡ none = l.2 ∙ idle in
      rw e (
        ground (arith, l, idle, fresh),
        added,
        l'.0 ∙ ground (arith, idle', held),
        l'.1 ∙ ground (arith, idle', held, added),
      )
