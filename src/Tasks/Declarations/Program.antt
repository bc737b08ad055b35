-- ===== src/Tasks/Declarations/Program.antt =====
-- The names that a program has registered after its declarations.
use atasks.Prelude.{
  ℕ, String, ◌≡◌, refl, sym, ap, ◌∙◌, not, ◌&&◌, List, [], ◌∷◌, ◌++◌, ◌==◌, eq_iff, if◌then◌else◌,
  Bool-cases, inl, inr,
}
use atasks.Prelude.Lists.{contains}
use atasks.Prelude.Dict
use atasks.Hop.{Kind}
use atasks.Errors.{returned, raised, exception, registering_twice}
use atasks.Registry
use atasks.Namespaces.{namespaces}
use atasks.Transport.{kind_eq}
use atasks.Router.{Router, names}
use atasks.Router.Synced.{register_lem}
use atasks.Tasks.{Coroutine, task_name, decorate}
use atasks.Tasks.Declarations.{Application, DecoratorArguments, router_of, declare, no_declarations}
use atasks.Tasks.Declarations.Tables.{
  IsSettled, names_of, registered_names, decorate-IsIdle, router_of_self, router_of-IsSettled,
  router_of-registered_names, set_router-IsSettled, set_router-registered_names,
}

-- The names that are declared for a kind in a namespace, each where it comes first.
unfoldable pub declared_names :
    {V : Type 0}
    → Kind
    → String
    → List (DecoratorArguments V × Coroutine V)
    → List String
    → List String
declared_names k namespace [] found = found
declared_names k namespace ((settings, coro) ∷ rest) found =
    let name = task_name settings.name coro in
    declared_names k namespace rest (
      if settings.namespace == namespace && kind_eq settings.kind k && not (contains name found)
      then found ++ name ∷ []
      else found)

module _ {V T : Type 0} where
  module _ (settings : DecoratorArguments V) (coro : Coroutine V) (app : Application V T)
      (h : IsSettled app) where
    declare-IsSettled : IsSettled (declare settings coro app).1
    unfolding declare
    declare-IsSettled =
        let namespace = settings.namespace in
        let app' = (router_of namespace app).1 in
        let s = router_of-IsSettled namespace app h in
        let n = (router_of namespace app).0 in
        let own = router_of_self namespace app h in
        set_router-IsSettled app' s namespace n own _ (
          decorate-IsIdle settings.kind settings.name settings.options coro namespace
            (app'.routers n) (s.idles namespace n own))

    declare_lem :
        let name = task_name settings.name coro in
        (k : Kind) (j : String)
        → ((declare settings coro app).0 ≡ (
            if contains name (registered_names app settings.kind settings.namespace)
            then raised (exception (registering_twice settings.namespace name))
            else returned tt))
          × (registered_names (declare settings coro app).1 k j ≡ (
              if settings.namespace == j
                && kind_eq settings.kind k
                && not (contains name (registered_names app k j))
              then registered_names app k j ++ name ∷ []
              else registered_names app k j))
    unfolding declare decorate
    declare_lem k j =
        let namespace = settings.namespace in
        let name = task_name settings.name coro in
        let app' = (router_of namespace app).1 in
        let s = router_of-IsSettled namespace app h in
        let n = (router_of namespace app).0 in
        let own = router_of_self namespace app h in
        let i = s.idles namespace n own in
        let l =
          register_lem settings.kind name coro.value settings.options (app'.routers n) k
            (i.strict settings.kind) in
        let held : (x : Kind) → names (app'.routers n) x ≡ registered_names app x namespace = λ x.
          ap (names_of app'.routers x) (sym own)
          ∙ router_of-registered_names namespace app h x namespace in
        (
          l.0 ∙ rw (i.idle, held settings.kind, i.named settings.kind) refl,
          set_router-registered_names app' s namespace n own _ k j
              ∙ elim (Bool-cases (namespace == j)) [
                | inl same ↦
                    let held_j : names (app'.routers n) k ≡ registered_names app k j =
                      held k ∙ ap (registered_names app k) ((eq_iff namespace j).0 same) in
                    rw same (l.1 ∙ rw (i.idle, held_j) refl)
                | inr other ↦ rw other (router_of-registered_names namespace app h k j)
              ],
        )

  -- Every declaration of a program, also after one that was refused.
  unfoldable pub declare_all :
      List (DecoratorArguments V × Coroutine V) → Application V T → Application V T
  declare_all [] app = app
  declare_all ((settings, coro) ∷ rest) app = declare_all rest (declare settings coro app).1

  declare_all-registered_names :
      (declarations : List (DecoratorArguments V × Coroutine V)) (app : Application V T)
      → IsSettled app
      → (k : Kind) (j : String)
      → registered_names (declare_all declarations app) k j
        ≡ declared_names k j declarations (registered_names app k j)
  unfolding declare_all declared_names
  declare_all-registered_names [] app h k j = refl
  declare_all-registered_names ((settings, coro) ∷ rest) app h k j =
      declare_all-registered_names rest (declare settings coro app).1
        (declare-IsSettled settings coro app h) k j
      ∙ ap (declared_names k j rest) (declare_lem settings coro app h k j).1

  declare_all-IsSettled :
      (declarations : List (DecoratorArguments V × Coroutine V)) (app : Application V T)
      → IsSettled app
      → IsSettled (declare_all declarations app)
  unfolding declare_all
  declare_all-IsSettled [] app h = h
  declare_all-IsSettled ((settings, coro) ∷ rest) app h =
      declare_all-IsSettled rest (declare settings coro app).1
        (declare-IsSettled settings coro app h)

  no_declarations-registered_names :
      (routers : ℕ → Router V T) (transports : ℕ → T) (k : Kind) (j : String)
      → registered_names (no_declarations routers transports) k j ≡ []
  unfolding namespaces Registry.new Dict.lookup
  no_declarations-registered_names routers transports k j = refl

  no_declarations-IsSettled :
      (routers : ℕ → Router V T) (transports : ℕ → T)
      → IsSettled (no_declarations routers transports)
  unfolding namespaces Registry.new Dict.lookup
  no_declarations-IsSettled routers transports = record {
    unites = refl;
    below = λ x n e. cc;
    apart = λ x y n e f. cc;
    idles = λ x n e. absurd (cc (e));
  }

  -- However a program declares its tasks, each name that is declared for a kind in a namespace is
  -- registered there once, in the order of the first declarations, and nothing else is. One more
  -- declaration raises `RegisteringTwice` exactly where its name was declared before for its kind in
  -- its namespace. The routers are not activated meanwhile.
  pub declare_all_lem :
      (declarations : List (DecoratorArguments V × Coroutine V)) (routers : ℕ → Router V T)
      (transports : ℕ → T) (settings : DecoratorArguments V) (coro : Coroutine V) (k : Kind)
      (j : String)
      → let app = declare_all declarations (no_declarations routers transports) in
        let name = task_name settings.name coro in
        (registered_names app k j ≡ declared_names k j declarations [])
        × ((declare settings coro app).0 ≡ (
            if contains name (declared_names settings.kind settings.namespace declarations [])
            then raised (exception (registering_twice settings.namespace name))
            else returned tt))
  declare_all_lem declarations routers transports settings coro k j =
      let start = no_declarations routers transports in
      let h = no_declarations-IsSettled routers transports in
      let app = declare_all declarations start in
      let all : (x : Kind) (y : String)
          → registered_names app x y ≡ declared_names x y declarations [] =
        λ x y.
          declare_all-registered_names declarations start h x y
          ∙ ap (declared_names x y declarations)
              (no_declarations-registered_names routers transports x y) in
      (
        all k j,
        (declare_lem settings coro app (declare_all-IsSettled declarations start h) k j).0
            ∙ rw (all settings.kind settings.namespace) refl,
      )
