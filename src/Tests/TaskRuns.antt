-- ===== src/Tests/TaskRuns.antt =====
-- A run of a light reference, that is refused.
use atasks.Prelude.{ℕ, ◌≡◌, refl, [], ◌∷◌}
use atasks.Prelude.Dict
use atasks.Hop.{rpc}
use atasks.Errors.{type_error, Exec, raised, exception, other}
use atasks.Calls.{can_bind, Program, Process, run_with}
use atasks.Refs.{Ref, default_ref, bind, get_item, get_item-unready}
use atasks.Tests.SampleWorld.{sample_world, sample_process}

abbrev bodies : Program ℕ → Exec (Process ℕ) ℕ
bodies = run_with sample_world (λ _ p. (raised (exception (other "RecursionError")), p))

abbrev hurried : Ref
hurried = bind "default" (("timeout", 30) ∷ []) (default_ref rpc)

get_item-unready_example :
    get_item sample_world bodies hurried "job" [] (("trace_chain", 1) ∷ []) sample_process
    ≡ (raised (exception type_error), record sample_process { calls = 1 })
unfolding bind can_bind Dict.keys
get_item-unready_example =
    get_item-unready sample_world bodies hurried "job" [] (("trace_chain", 1) ∷ []) sample_process
      refl
