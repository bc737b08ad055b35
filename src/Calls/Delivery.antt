-- ===== src/Calls/Delivery.antt =====
-- A call over the process's own transport, from `send` to the handler and back.
pub mod Stubs
use atasks.Prelude.{
  ℕ, suc, String, ◌≡◌, ◌≢◌, refl, ◌∙◌, ap, true, false, Option, none, some, List, [], ◌∷◌, arith,
}
use atasks.Prelude.Dict
use atasks.Prelude.Dict.{Dict}
use atasks.Hop.{Kind, rpc, queue, broadcast, AtaskHop}
use atasks.Errors.{
  Exec, Outcome, returned, raised, exception, PyException, transport_error, unknown_request_name,
  for_each, ◌>>=◌, continue,
}
use atasks.Registry
use atasks.Registry.{RegistryItem}
use atasks.Trace.{push_hop, enter, leave, attach}
use atasks.Codec.{Bytes, Payload, request, success, failure, encode, decode, is_true}
use atasks.Transport.Loopback.{
  Loopback, send_request, publish_event, publish_broadcast, subscribers,
}
use atasks.Router.{Callback}
use atasks.Calls.{
  Program, Attribute, Process, World, call_coro, traced, handle, on_request, on_event, on_broadcast,
  run_callback, receive_response, send_bound, aioref, coro_of, log_failure, unpack_response,
}
use atasks.Calls.Restores.{IsFaithful, Restores}

module _ {X : Type 0} (world : World X) (chain : List AtaskHop) where
  -- The process as the coroutine finds it: on the chain that was sent, in a frame of its own.
  abbrev pub inside : Process X → Process X
  inside q = record q {
    context = record { chain = chain; entry_frame = some (world.frame_at q.calls) };
  }

  -- What the coroutine raised gets the trace of the chain that was sent, unless it has one.
  abbrev pub witnessed : Process X → Outcome X → Payload X
  witnessed q (returned v) = success v
  witnessed q (raised e) = failure (
      attach world.machine e world.settings (world.stamp_at q.calls).pid
        (world.traceback_at q.calls) (inside q).context)

-- A handler finds its coroutine in a registry.
abbrev pub Finds :
    {X : Type 0} → String → (List X → Dict X → Program X) → Registry.Manager (Attribute X) → Type 0
Finds name body registry =
    elim (Registry.get name registry).0 [ none ↦ none | some item ↦ coro_of item ] ≡ some body

module _ {X : Type 0} (world : World X) where
  pub decode-encode_dumped :
      IsFaithful world
      → (x : Payload X) (bytes : Bytes) → world.pickle.dumps x ≡ returned bytes
      → (decode world.pickle (encode world.pickle x) ≡ some x)
        × (is_true (encode world.pickle x) ≡ true)
  unfolding decode encode
  decode-encode_dumped faithful x [] e = absurd (faithful.dumps_nonempty x e)
  decode-encode_dumped faithful x (b ∷ bytes) e =
      (ground (arith, e, faithful.loads-dumps x (b ∷ bytes) e), ground (arith, e))

  module _ (f : Program X → Exec (Process X) X) (f-Restores : (b : Program X) → Restores (f b))
      (chain : List AtaskHop) where
    settled :
        (b : Program X) (q : Process X) (r : Outcome X × Process X)
        → r.1.context ≡ (inside world chain q).context
        → f b (inside world chain q) ≡ r
        → traced world f chain b q
          ≡ (witnessed world chain q r.0, record r.1 { context = q.context })
    unfolding traced call_coro enter leave
    settled b q (returned v, q') kept e = rw e
    settled b q (raised x, q') kept e = rw e (
        ap
          (λ c. (
            failure (
                attach world.machine x world.settings (world.stamp_at q.calls).pid
                  (world.traceback_at q.calls) c),
            record q' { context = q.context },
          ))
          kept)

    traced_lem :
        (b : Program X) (q : Process X)
        → traced world f chain b q ≡ (
          witnessed world chain q (f b (inside world chain q)).0,
          record (f b (inside world chain q)).1 { context = q.context },
        )
    traced_lem b q =
        settled b q (f b (inside world chain q)) ((f-Restores b).at (inside world chain q)) refl

    module _ (faithful : IsFaithful world) (name : String) (argv : List X) (kwargs : Dict X)
        (client : Loopback Callback) (body : List X → Dict X → Program X) (p : Process X) where
      abbrev pub content : Option Bytes
      content = encode world.pickle (request argv kwargs chain)

      abbrev pub result : Payload X
      result = witnessed world chain p (f (body argv kwargs) (inside world chain p)).0

      abbrev pub after : Process X
      after = record (f (body argv kwargs) (inside world chain p)).1 { context = p.context }

      handle_lem :
          (registry : Registry.Manager (Attribute X)) (bytes : Bytes)
          → p.has_codec ≡ true
          → world.pickle.dumps (request argv kwargs chain) ≡ returned bytes
          → Finds name body registry
          → handle world f registry name content p ≡ (returned result, after)
      unfolding handle
      handle_lem registry bytes codec dumped found = ground (
        arith,
        (decode-encode_dumped faithful (request argv kwargs chain) bytes dumped).0,
        traced_lem (body argv kwargs) p,
      )

      pub send-rpc :
          (bytes bytes' : Bytes)
          → p.transport ≡ some client
          → p.has_codec ≡ true
          → Dict.lookup name client.request_callbacks ≡ some (record { kind = rpc; name = name })
          → Finds name body p.rpc_registry
          → world.pickle.dumps (request argv kwargs chain) ≡ returned bytes
          → world.pickle.dumps result ≡ returned bytes'
          → send_bound world f rpc name argv kwargs none chain p
            ≡ (unpack_response (some result) after)
      unfolding send_bound send_request run_callback on_request receive_response
      send-rpc bytes bytes' connected codec subscribed found dumped dumped' = ground (
        arith,
        handle_lem p.rpc_registry bytes codec dumped found,
        decode-encode_dumped faithful result bytes' dumped',
      )

      -- What is left after the handler has logged a failure.
      abbrev pub logged : Process X
      logged = (log_failure name result after).1

      log_failure-eq : log_failure name result after ≡ (returned tt, logged)
      log_failure-eq = ground arith

      pub send-queue :
          (timeout : Option ℕ) (bytes : Bytes)
          → p.transport ≡ some client
          → p.has_codec ≡ true
          → Dict.lookup name client.event_callbacks ≡ some (record { kind = queue; name = name })
          → Finds name body p.queue_registry
          → world.pickle.dumps (request argv kwargs chain) ≡ returned bytes
          → send_bound world f queue name argv kwargs timeout chain p
            ≡ (returned world.none_value, logged)
      unfolding send_bound publish_event run_callback on_event
      send-queue timeout bytes connected codec subscribed found dumped =
          ground (arith, handle_lem p.queue_registry bytes codec dumped found, log_failure-eq)

      pub send-broadcast :
          (timeout : Option ℕ) (bytes : Bytes)
          → p.transport ≡ some client
          → p.has_codec ≡ true
          → subscribers client name ≡ record { kind = broadcast; name = name } ∷ []
          → Finds name body p.broadcast_registry
          → world.pickle.dumps (request argv kwargs chain) ≡ returned bytes
          → send_bound world f broadcast name argv kwargs timeout chain p
            ≡ (returned world.none_value, logged)
      unfolding send_bound publish_broadcast run_callback on_broadcast for_each
      send-broadcast timeout bytes connected codec subscribed found dumped =
          ground (arith, handle_lem p.broadcast_registry bytes codec dumped found, log_failure-eq)
