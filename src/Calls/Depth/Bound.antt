-- ===== src/Calls/Depth/Bound.antt =====
-- The depth of a run and `max_trace_depth`: whole runs.
use Prim.Native.Nat.{◌≤◌}
use atasks.Prelude.{ℕ, zero, suc, ◌+◌, String, ◌≡◌, refl, sym, ◌∙◌, ap, Option, List, arith}
use atasks.Prelude.Lists.{length}
use atasks.Prelude.Dict.{Dict}
use atasks.Hop.{Kind}
use atasks.Errors.{Exec, Outcome, raised, exception, atask_stack_too_deep}
use atasks.Trace.Laws.{push_hop-guard}
use atasks.Calls.{Program, finish, throw, await_atask, Process, World, aioref, run_with, run}
use atasks.Calls.Restores.{IsFaithful, Restores}
use atasks.Calls.Restores.Stubs.{aioref-Restores, run-Restores}
use atasks.Calls.Depth.{Agree, aioref-Agree}

module _ {X : Type 0} (world : World X) where
  -- At the maximum depth a stub raises, whatever it calls.
  aioref-refused :
      (f : Program X → Exec (Process X) X) (kind : Kind) (name : String) (argv : List X)
      (kwargs : Dict X) (timeout : Option ℕ) (p : Process X)
      → world.stub_settings.max_trace_depth ≤ length p.context.chain
      → aioref world f kind name argv kwargs timeout p ≡ (
        raised (
            exception
              (atask_stack_too_deep world.stub_settings.max_trace_depth world.namespace name)),
        record p { calls = suc p.calls },
      )
  unfolding aioref
  aioref-refused f kind name argv kwargs timeout p h = rw (
      (push_hop-guard world.machine world.stub_settings name world.namespace kind
          (world.stamp_at p.calls) (world.site_at p.calls) p.context).1
        h)

  -- Programs run alike where their stubs do, since the chain is the same at each of them.
  run_with-Agree :
      (f g : Program X → Exec (Process X) X) (n : ℕ)
      → ((kind : Kind) (name : String) (argv : List X) (kwargs : Dict X) (timeout : Option ℕ)
            (p : Process X)
          → length p.context.chain ≡ n
          → (aioref world f kind name argv kwargs timeout p
              ≡ aioref world g kind name argv kwargs timeout p)
            × ((aioref world f kind name argv kwargs timeout p).1.context ≡ p.context))
      → (body : Program X) (p : Process X) → length p.context.chain ≡ n
      → run_with world f body p ≡ run_with world g body p
  unfolding run_with
  run_with-Agree f g n step (finish v) p h = refl
  run_with-Agree f g n step (throw e) p h = refl
  run_with-Agree f g n step (await_atask kind name argv kwargs timeout next) p h =
      let (same, kept) = step kind name argv kwargs timeout p h in
      let (result, p') = aioref world f kind name argv kwargs timeout p in
      run_with-Agree f g n step (next result) p' (ap (λ c. length c.chain) kept ∙ h)
      ∙ ap (λ (r : Outcome X × Process X). run_with world g (next r.0) r.1) same

  module _ (faithful : IsFaithful world) (f g : Program X → Exec (Process X) X)
      (f-Restores : (body : Program X) → Restores (f body)) where
    refused :
        (body : Program X) (p : Process X)
        → world.stub_settings.max_trace_depth ≤ length p.context.chain
        → run_with world f body p ≡ run_with world g body p
    refused body p h =
        run_with-Agree f g (length p.context.chain)
          (λ kind name argv kwargs timeout q e. (
            aioref-refused f kind name argv kwargs timeout q (omega (arith, e))
                ∙ sym (aioref-refused g kind name argv kwargs timeout q (omega (arith, e))),
            (aioref-Restores world faithful f f-Restores kind name argv kwargs timeout).at q,
          ))
          body p refl

    deeper :
        (body : Program X) (p : Process X)
        → Agree (suc (length p.context.chain)) f g
        → run_with world f body p ≡ run_with world g body p
    deeper body p agree =
        run_with-Agree f g (length p.context.chain)
          (λ kind name argv kwargs timeout q e. (
            aioref-Agree world faithful f g kind name argv kwargs timeout q (rw e agree),
            (aioref-Restores world faithful f f-Restores kind name argv kwargs timeout).at q,
          ))
          body p refl

-- The guard ends every recursion: where the depth allowed to a run and the hops that it starts with
-- reach `max_trace_depth`, the result and the process after it depend neither on the depth allowed
-- nor on what would run beyond it, which is therefore never run, cyclic calls included.
pub run-depth :
    {X : Type 0} (world : World X)
    → IsFaithful world
    → (beyond beyond' : Program X → Exec (Process X) X)
    → ((body : Program X) → Restores (beyond body))
    → (depth depth' : ℕ) (body : Program X) (p : Process X)
    → world.stub_settings.max_trace_depth ≤ depth + length p.context.chain
    → world.stub_settings.max_trace_depth ≤ depth' + length p.context.chain
    → run world beyond depth body p ≡ run world beyond' depth' body p
unfolding run
run-depth world faithful b b' h zero zero body p l l' =
    refused world faithful b b' h body p (omega arith)
run-depth world faithful b b' h zero (suc d') body p l l' =
    refused world faithful b (run world b' d') h body p (omega arith)
run-depth world faithful b b' h (suc d) zero body p l l' =
    refused world faithful (run world b d) b' (run-Restores world faithful b h d) body p
      (omega arith)
run-depth world faithful b b' h (suc d) (suc d') body p l l' =
    deeper world faithful (run world b d) (run world b' d') (run-Restores world faithful b h d) body
      p
      (record {
        at =
            λ q-body q m. run-depth world faithful b b' h d d' q-body q (omega arith) (omega arith);
      })
