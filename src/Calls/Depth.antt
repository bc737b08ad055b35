-- ===== src/Calls/Depth.antt =====
-- The depth of a run and the guard of `push_hop`: what a handler, a callback and a stub ask of what
-- lies deeper.
pub mod Bound
use Prim.Native.Nat.{◌≤◌}
use atasks.Prelude.{
  if◌then◌else◌, ℕ, zero, suc, ◌+◌, String, ◌≡◌, refl, ◌∙◌, sym, ap, fun_ext, Option, none, some,
  List, [], ◌∷◌, ◌++◌, arith, Option-cases, Bool-cases, inl, inr, ◌⊎◌,
}
use atasks.Prelude.Lists.{length}
use atasks.Prelude.Dict
use atasks.Prelude.Dict.{Dict}
use atasks.Hop.{Kind, rpc, queue, broadcast, AtaskHop}
use atasks.Errors.{
  raise, type_error, Exec, Outcome, returned, raised, PyException, for_each, ◌>>=◌, continue,
}
use atasks.Registry.{Manager, RegistryItem}
use atasks.Registry
use atasks.Trace.{push_hop, enter, leave, Settings}
use atasks.Trace.Laws.{push_hop-length}
use atasks.Codec.{Bytes, Payload, request, success, failure, encode, decode}
use atasks.Transport.Loopback.{
  Loopback, send_request, publish_event, publish_broadcast, subscribers,
}
use atasks.Router.{Callback}
use atasks.Calls.{
  Program, finish, throw, await_atask, Attribute, Process, World, call_coro, traced, handle,
  call_item, unpack, on_request, on_event, on_broadcast, run_callback, run_listener,
  receive_response, send, send_bound, can_bind, aioref, run_with, run, coro_of, log_failure,
  unpack_response, with_client,
}
use atasks.Calls.Restores.{IsFaithful, Restores}
use atasks.Calls.Restores.Stubs.{aioref-Restores, run_with-Restores}

-- Two ways to run bodies that agree where the chain has at least `n` hops.
pub record Agree {X : Type 0} (n : ℕ) (f g : Program X → Exec (Process X) X) : Type 0 where
  pub at : (body : Program X) (p : Process X) → n ≤ length p.context.chain → f body p ≡ g body p

module _ {X : Type 0} (world : World X) (faithful : IsFaithful world) (n : ℕ)
    (f g : Program X → Exec (Process X) X) (agree : Agree n f g) where
  traced-Agree :
      (chain : List AtaskHop) (body : Program X) (p : Process X)
      → n ≤ length chain
      → traced world f chain body p ≡ traced world g chain body p
  unfolding traced call_coro enter
  traced-Agree chain body p h = rw (
      agree.at body
        (record p {
          context = record { chain = chain; entry_frame = some (world.frame_at p.calls) };
        })
        h)

  call_item-Agree :
      (argv : List X) (kwargs : Dict X) (chain : List AtaskHop)
      (item : Option (RegistryItem (Attribute X))) (name : String) (p : Process X)
      → n ≤ length chain
      → call_item world f argv kwargs chain item name p
        ≡ call_item world g argv kwargs chain item name p
  call_item-Agree argv kwargs chain none name p h = refl
  call_item-Agree argv kwargs chain (some item) name p h = elim (Option-cases (coro_of item)) [
    | inl e ↦ ground (arith, e)
    | inr (c, e) ↦ ground (arith, e, traced-Agree chain (c argv kwargs) p h)
  ]

  -- What a call sent is what its handler unpacks, or nothing is.
  decode-encode :
      (x : Payload X)
      → (decode world.pickle (encode world.pickle x) ≡ some x)
        ⊎ (decode world.pickle (encode world.pickle x) ≡ none)
  unfolding decode encode
  decode-encode x = go (world.pickle.dumps x) refl
    where
      go :
          (o : Outcome Bytes)
          → world.pickle.dumps x ≡ o
          → (decode world.pickle (encode world.pickle x) ≡ some x)
            ⊎ (decode world.pickle (encode world.pickle x) ≡ none)
      go (returned bytes) e = inl (ground (arith, e, faithful.loads-dumps x bytes e))
      go (raised x) e = inr (ground (arith, e))

  handle-Agree :
      (registry : Manager (Attribute X)) (name : String) (argv : List X) (kwargs : Dict X)
      (chain : List AtaskHop) (p : Process X)
      → n ≤ length chain
      → let content = encode world.pickle (request argv kwargs chain) in
        handle world f registry name content p ≡ handle world g registry name content p
  unfolding handle
  handle-Agree registry name argv kwargs chain p h =
      elim (decode-encode (request argv kwargs chain)) [
        | inl e ↦
            ground
              (arith, e, call_item-Agree argv kwargs chain (Registry.get name registry).0 name p h)
        | inr e ↦ ground (arith, e)
      ]

  run_callback-Agree :
      (callback : Callback) (argv : List X) (kwargs : Dict X) (chain : List AtaskHop)
      → n ≤ length chain
      → let content = encode world.pickle (request argv kwargs chain) in
        run_callback world f callback content ≡ run_callback world g callback content
  unfolding run_callback on_request on_event on_broadcast
  run_callback-Agree callback argv kwargs chain h = fun_ext λ p. ground (
    arith,
    handle-Agree p.rpc_registry callback.name argv kwargs chain p h,
    handle-Agree p.queue_registry callback.name argv kwargs chain p h,
    handle-Agree p.broadcast_registry callback.name argv kwargs chain p h,
  )

  run_listener-Agree :
      (callback : Callback) (argv : List X) (kwargs : Dict X) (chain : List AtaskHop)
      → n ≤ length chain
      → let content = encode world.pickle (request argv kwargs chain) in
        run_listener world f callback content ≡ run_listener world g callback content
  run_listener-Agree callback argv kwargs chain h =
      ap (λ (m : Exec (Process X) (Option Bytes)). m >>= λ _ q. (returned tt, q))
        (run_callback-Agree callback argv kwargs chain h)

  module _ (argv : List X) (kwargs : Dict X) (chain : List AtaskHop) (h : n ≤ length chain) where
    abbrev content : Option Bytes
    content = encode world.pickle (request argv kwargs chain)

    callback_at :
        (c : Callback) (p : Process X)
        → run_callback world f c content p ≡ run_callback world g c content p
    callback_at c p =
        ap (λ (m : Exec (Process X) (Option Bytes)). m p) (run_callback-Agree c argv kwargs chain h)

    send_request-Agree :
        (client : Loopback Callback) (name : String) (timeout : Option ℕ)
        → send_request (run_callback world f) (λ _. client) world.wait_for name content timeout
          ≡ send_request (run_callback world g) (λ _. client) world.wait_for name content timeout
    unfolding send_request
    send_request-Agree client name timeout = fun_ext λ p.
        elim (Option-cases (Dict.lookup name client.request_callbacks)) [
          | inl e ↦ ground (arith, e)
          | inr (c, e) ↦ ground (arith, e, callback_at c p)
        ]

    publish_event-Agree :
        (client : Loopback Callback) (name : String)
        → publish_event (run_listener world f) (λ _. client) name content
          ≡ publish_event (run_listener world g) (λ _. client) name content
    unfolding publish_event
    publish_event-Agree client name = fun_ext λ p.
        elim (Option-cases (Dict.lookup name client.event_callbacks)) [
          | inl e ↦ ground (arith, e)
          | inr (c, e) ↦ ground (arith, e, callback_at c p)
        ]

    publish_broadcast-Agree :
        (client : Loopback Callback) (name : String)
        → publish_broadcast (run_listener world f) (λ _. client) name content
          ≡ publish_broadcast (run_listener world g) (λ _. client) name content
    unfolding publish_broadcast
    publish_broadcast-Agree client name =
        ap (for_each (subscribers client name))
          (fun_ext λ c. run_listener-Agree c argv kwargs chain h)

    send_bound-Agree :
        (kind : Kind) (name : String) (timeout : Option ℕ)
        → send_bound world f kind name argv kwargs timeout chain
          ≡ send_bound world g kind name argv kwargs timeout chain
    unfolding send_bound
    send_bound-Agree rpc name timeout = fun_ext λ p.
        ap (λ (s : Loopback Callback → Exec (Process X) X). with_client s p.transport p)
          (fun_ext λ client.
            ap (λ (m : Exec (Process X) (Option Bytes)). m >>= receive_response world)
              (send_request-Agree client name timeout))
    send_bound-Agree queue name timeout = fun_ext λ p.
        ap (λ (s : Loopback Callback → Exec (Process X) X). with_client s p.transport p)
          (fun_ext λ client.
            ap (λ (m : Exec (Process X) (Unit {0})). m >>= λ _ q. (returned world.none_value, q))
              (publish_event-Agree client name))
    send_bound-Agree broadcast name timeout = fun_ext λ p.
        ap (λ (s : Loopback Callback → Exec (Process X) X). with_client s p.transport p)
          (fun_ext λ client.
            ap (λ (m : Exec (Process X) (Unit {0})). m >>= λ _ q. (returned world.none_value, q))
              (publish_broadcast-Agree client name))

    send-Agree :
        (kind : Kind) (name : String) (timeout : Option ℕ)
        → send world f kind name argv kwargs timeout chain
          ≡ send world g kind name argv kwargs timeout chain
    unfolding send
    send-Agree kind name timeout =
        ap {B = Exec (Process X) X}
          (λ (m : Exec (Process X) X) p. if can_bind kind kwargs then m p else raise type_error p)
          (send_bound-Agree kind name timeout)

module _ {X : Type 0} (world : World X) (faithful : IsFaithful world)
    (f g : Program X → Exec (Process X) X) where
  -- A stub agrees where bodies agree on every longer chain, or where the guard refuses the call.
  aioref-Agree :
      (kind : Kind) (name : String) (argv : List X) (kwargs : Dict X) (timeout : Option ℕ)
      (p : Process X)
      → Agree (suc (length p.context.chain)) f g
      → aioref world f kind name argv kwargs timeout p
        ≡ aioref world g kind name argv kwargs timeout p
  unfolding aioref
  aioref-Agree kind name argv kwargs timeout p agree = go (pushed p) refl
    where
      pushed : Process X → Outcome (List AtaskHop)
      pushed q =
          push_hop world.machine world.stub_settings name world.namespace kind
            (world.stamp_at q.calls) (world.site_at q.calls) q.context

      go :
          (o : Outcome (List AtaskHop))
          → pushed p ≡ o
          → continue o
              (send world f kind name argv kwargs timeout)
              (record p { calls = suc p.calls })
            ≡ continue o
                (send world g kind name argv kwargs timeout)
                (record p { calls = suc p.calls })
      go (raised e) q = refl
      go (returned chain) q =
          ap (λ (m : Exec (Process X) X). m (record p { calls = suc p.calls }))
            (send-Agree world faithful (suc (length p.context.chain)) f g agree argv kwargs chain
              (omega (
                arith,
                push_hop-length world.machine world.stub_settings name world.namespace kind
                    (world.stamp_at p.calls) (world.site_at p.calls) p.context q,
              ))
              kind name timeout)
