-- ===== src/Tests/DeclarationRuns.antt =====
-- A run of the decorators in two namespaces.
use atasks.Prelude.{ℕ, String, ◌≡◌, refl, Option, none, some, List, [], ◌∷◌}
use atasks.Hop.{Kind, rpc, queue}
use atasks.Errors.{returned, raised, exception, registering_twice}
use atasks.Router.{Router}
use atasks.Router
use atasks.Tasks.{Coroutine, task_name}
use atasks.Tasks.Declarations.{
  DecoratorArguments, partial, declare, atask_queue, apply_decorator, no_declarations,
}
use atasks.Tasks.Declarations.Tables.{registered_names}
use atasks.Tasks.Declarations.Program.{declare_all, declared_names, declare_all_lem}

-- A program that declares one name twice, and once more in another namespace.
abbrev task : String → Coroutine ℕ
task name = record { module_name = "jobs"; function_name = name; value = 5 }

abbrev settings_of : Kind → String → Option String → DecoratorArguments ℕ
settings_of kind namespace name = record {
  kind = kind;
  name = name;
  namespace = namespace;
  options = 0;
}

abbrev program : List (DecoratorArguments ℕ × Coroutine ℕ)
program =
    (settings_of rpc "default" none, task "send")
    ∷ (settings_of rpc "default" (some "jobs.send"), task "post")
    ∷ (settings_of queue "default" none, task "send")
    ∷ (settings_of rpc "reports" (some "total"), task "sum")
    ∷ []

abbrev unused_router : ℕ → Router ℕ ℕ
unused_router _ = Router.new "" (λ _. 0)

declare_all_lem_example :
    (registered_names (declare_all program (no_declarations unused_router (λ _. 0))) rpc "default"
      ≡ "jobs.send" ∷ [])
    × ((declare
          (settings_of rpc "reports" (some "total"))
          (task "sum")
          (declare_all program (no_declarations unused_router (λ _. 0)))).0
        ≡ raised (exception (registering_twice "reports" "total")))
unfolding declared_names task_name
declare_all_lem_example =
    declare_all_lem program unused_router (λ _. 0) (settings_of rpc "reports" (some "total"))
      (task "sum") rpc "default"

-- A decorator that is given no coroutine keeps its arguments, for the one that it is applied to.
partial_kept :
    (atask_queue none none "reports" 0 (no_declarations unused_router (λ _. 0))).0
    ≡ returned (partial (settings_of queue "reports" none))
unfolding apply_decorator
partial_kept = refl
