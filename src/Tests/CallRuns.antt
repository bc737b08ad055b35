-- ===== src/Tests/CallRuns.antt =====
-- Runs of a call, from the stub to the coroutine and back, in the sample process.
use atasks.Prelude.{ℕ, ◌+◌, ◌≡◌, refl, false, none, some, List, [], ◌∷◌, arith}
use atasks.Prelude.Dict
use atasks.Hop.{Kind, rpc, queue, broadcast, AtaskHop}
use atasks.Errors.{
  Exec, returned, raised, exception, unknown_request_name, no_codec_registered, other,
}
use atasks.Registry
use atasks.Trace.{push_hop, next_hop, outside}
use atasks.Calls.{
  Program, finish, throw, await_atask, Process, aioref, run, run_with, can_bind, unpack_response,
}
use atasks.Calls.Restores.{Restores}
use atasks.Calls.Restores.Stubs.{run-Restores}
use atasks.Calls.Depth.Bound.{run-depth}
use atasks.Calls.Delivery.{witnessed}
use atasks.Calls.Delivery.Stubs.{stamped, ran, await-rpc, await-unready, await-unserved}
use atasks.Tests.SampleWorld.{
  sample_world, sample_world-IsFaithful, sample_process, sample_client, sample_body, first_hop,
  kind_code, dumps-first_hop, dumps-success, sample_machine, sample_settings, sample_stamp,
  sample_site,
}

-- What lies beyond the maximum depth, written two ways.
abbrev gives_up : Program ℕ → Exec (Process ℕ) ℕ
gives_up _ p = (raised (exception (other "out of depth")), p)

abbrev gives_zero : Program ℕ → Exec (Process ℕ) ℕ
gives_zero _ p = (returned 0, p)

gives_up-Restores : (b : Program ℕ) → Restores (gives_up b)
gives_up-Restores b = record { at = λ p. refl }

-- A coroutine that awaits the atask and adds one.
abbrev caller : Program ℕ
caller =
    await_atask rpc "job" [] [] none
      λ r. elim r [ returned v ↦ finish (v + 1) | raised e ↦ throw e ]

run-Restores_example : Restores (run sample_world gives_up 2 caller)
run-Restores_example =
    run-Restores sample_world sample_world-IsFaithful gives_up gives_up-Restores 2 caller

run-depth_example :
    run sample_world gives_up 2 caller sample_process
    ≡ run sample_world gives_zero 5 caller sample_process
run-depth_example =
    run-depth sample_world sample_world-IsFaithful gives_up gives_zero gives_up-Restores 2 5 caller
      sample_process (omega arith) (omega arith)

abbrev bodies : Program ℕ → Exec (Process ℕ) ℕ
bodies = run_with sample_world gives_up

bodies-Restores : (b : Program ℕ) → Restores (bodies b)
unfolding run
bodies-Restores b = run-Restores sample_world sample_world-IsFaithful gives_up gives_up-Restores 0 b

await-rpc_example :
    let r = ran sample_world bodies (first_hop rpc ∷ []) (sample_body [] []) sample_process in
    aioref sample_world bodies rpc "job" [] [] none sample_process
    ≡ unpack_response
        (some (witnessed sample_world (first_hop rpc ∷ []) (stamped sample_process) r.0))
        (record r.1 { context = sample_process.context })
unfolding push_hop Dict.lookup Registry.get Registry.getattr run_with can_bind Dict.keys
await-rpc_example =
    await-rpc sample_world sample_world-IsFaithful bodies bodies-Restores "job" [] [] sample_client
      sample_body sample_process (first_hop rpc ∷ []) (kind_code rpc) (0 ∷ 42 ∷ []) refl refl refl
      refl refl refl (dumps-first_hop rpc) (dumps-success 42)

abbrev no_codec : Process ℕ
no_codec = record sample_process { has_codec = false }

await-unready_example :
    aioref sample_world bodies queue "job" [] [] none no_codec
    ≡ (raised (exception no_codec_registered), stamped no_codec)
unfolding can_bind Dict.keys
await-unready_example = await-unready sample_world bodies "job" [] [] no_codec queue none refl

abbrev absent_hop : Kind → List AtaskHop
absent_hop kind =
    next_hop sample_machine sample_settings "absent" "default" kind sample_stamp sample_site outside
    ∷ []

await-unserved_example :
    (aioref sample_world bodies rpc "absent" [] [] (some 3) sample_process
      ≡ (raised (exception (unknown_request_name "absent")), stamped sample_process))
    × (aioref sample_world bodies queue "absent" [] [] (some 3) sample_process
        ≡ (returned 0, stamped sample_process))
    × (aioref sample_world bodies broadcast "absent" [] [] (some 3) sample_process
        ≡ (returned 0, stamped sample_process))
unfolding push_hop Dict.lookup can_bind Dict.keys
await-unserved_example =
    await-unserved sample_world bodies "absent" [] [] sample_process (some 3) (absent_hop rpc)
      (absent_hop queue) (absent_hop broadcast) sample_client refl refl refl refl refl refl refl
      refl refl refl refl
