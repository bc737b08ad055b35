-- ===== src/Calls.antt =====
-- atasks/router.py, the way of a call: the stubs that `register_atask` and its counterparts return,
-- `send_request`, `send_event` and `send_broadcast`, the transport, `_on_request`, `_on_event` and
-- `_on_broadcast`, and `_call_coro`, for one process whose router serves its own
-- `LoopbackTransport` (atasks/transport/base.py). A coroutine is a program that may await atasks.
pub mod Restores
pub mod Depth
pub mod Delivery
use atasks.Prelude.{
  ℕ, zero, suc, String, Bool, true, false, Option, none, some, List, [], ◌∷◌, ◌++◌, is_some,
  if◌then◌else◌, not, ◌&&◌,
}
use atasks.Prelude.Lists.{contains}
use atasks.Prelude.Dict
use atasks.Prelude.Dict.{Dict}
use atasks.Hop.{Kind, rpc, queue, broadcast, AtaskHop}
use atasks.Errors.{
  Exec, Outcome, returned, raised, raise, PyException, exception, ExceptionClass,
  no_client_transport_registered, no_codec_registered, transport_error, job_not_found,
  attribute_error, type_error, other, ◌>>=◌, ◌>>◌, continue,
}
use atasks.Registry.{Manager, RegistryItem, getattr}
use atasks.Registry
use atasks.Frames.{Machine, TracebackEntry}
use atasks.Trace.{Context, Settings, Stamp, CallSite, push_hop, enter, leave, attach}
use atasks.Codec.{Bytes, Payload, request, success, failure, Pickle, encode, decode, is_true}
use atasks.Transport.Loopback.{Loopback, send_request, publish_event, publish_broadcast}
use atasks.Router.{Callback}

-- A coroutine as the router sees it: it returns, raises an `Exception`, or awaits an atask by its
-- stub, with the arguments and the timeout of the stub, and goes on with what came of it.
pub data Program (X : Type 0) : Type 0 where
  finish : X → Program X
  throw : PyException → Program X
  await_atask : Kind → String → List X → Dict X → Option ℕ → (Outcome X → Program X) → Program X

-- The attributes of a registered item.
pub data Attribute (X : Type 0) : Type 0 where
  coro : (List X → Dict X → Program X) → Attribute X
  options : Dict X → Attribute X

-- The process: the context variables of the task, the objects of the namespace, what
-- `logger.error` was given, and the number of calls made, which numbers what the interpreter and
-- the system answer.
pub record Process (X : Type 0) : Type 0 where
  pub context : Context
  pub has_codec : Bool
  pub transport : Option (Loopback Callback)
  pub rpc_registry : Manager (Attribute X)
  pub queue_registry : Manager (Attribute X)
  pub broadcast_registry : Manager (Attribute X)
  pub logged : List (String × PyException)
  pub calls : ℕ

-- The router, and what is not code of the repository: the machine, the stamp and the call site of
-- each call, the frame of each `_call_coro` and the traceback of what is raised in it, `pickle`,
-- `asyncio.wait_for`, and the value `None`. `settings` are those of `get_router(namespace)`, and
-- `stub_settings` those of the router that registered the atasks, `self` in its stubs, which is
-- another one where a `Router` was made directly.
pub record World (X : Type 0) : Type 0 where
  pub namespace : String
  pub settings : Settings
  pub stub_settings : Settings
  pub machine : Machine
  pub stamp_at : ℕ → Stamp
  pub site_at : ℕ → CallSite
  pub frame_at : ℕ → ℕ
  pub traceback_at : ℕ → Option (List TracebackEntry)
  pub pickle : Pickle X
  pub wait_for : ℕ → Outcome (Option Bytes) × Process X → Outcome (Option Bytes) × Process X
  pub none_value : X

-- The parameters of `send_request`, `send_event` and `send_broadcast` that have a name.
abbrev pub parameters : Kind → List String
parameters rpc = "self" ∷ "name" ∷ "timeout" ∷ "trace_chain" ∷ []
parameters queue = "self" ∷ "name" ∷ "trace_chain" ∷ []
parameters broadcast = "self" ∷ "name" ∷ "trace_chain" ∷ []

abbrev none_of : List String → List String → Bool
none_of [] names = true
none_of (x ∷ xs) names = not (contains x names) && none_of xs names

-- No keyword argument of the atask has the name of one of them.
unfoldable pub can_bind : {X : Type 0} → Kind → Dict X → Bool
can_bind kind kwargs = none_of (parameters kind) (Dict.keys kwargs)

module _ {X : Type 0} where
  -- `item.coro`, where `item.options` is there too.
  abbrev coro_of : RegistryItem (Attribute X) → Option (List X → Dict X → Program X)
  coro_of item = elim (getattr item "coro") [
    | none ↦ none
    | some (coro f) ↦ if is_some (getattr item "options") then some f else none
    | some (options _) ↦ none
  ]

  -- The attribute that `AttributeError` names: `coro` is read first.
  abbrev missing : RegistryItem (Attribute X) → String
  missing item = if is_some (getattr item "coro") then "options" else "coro"

  -- `if not success: logger.error(...)`
  abbrev pub log_failure : String → Payload X → Exec (Process X) (Unit {0})
  log_failure name (failure e) p = (returned tt, record p { logged = p.logged ++ (name, e) ∷ [] })
  log_failure name _ p = (returned tt, p)

  -- `success, result = ...`, and `raise result`.
  abbrev pub unpack_response : Option (Payload X) → Exec (Process X) X
  unpack_response none p = raise type_error p
  unpack_response (some (success v)) p = (returned v, p)
  unpack_response (some (failure e)) p = (raised e, p)
  unpack_response (some (request _ _ _)) p = raise (other "ValueError") p

  -- The two checks that open `send_request`, `send_event` and `send_broadcast`.
  abbrev with_client :
      (Loopback Callback → Exec (Process X) X) → Option (Loopback Callback) → Exec (Process X) X
  with_client send none p = raise no_client_transport_registered p
  with_client send (some client) p =
      if p.has_codec then send client p else raise no_codec_registered p

module _ {X : Type 0} (world : World X) where
  unfoldable pub receive_response : Option Bytes → Exec (Process X) X
  receive_response response p =
      if is_true response
      then unpack_response (decode world.pickle response) p
      else raise transport_error p

  abbrev set_context : Process X → Context → Process X
  set_context p c = record p { context = c }

  -- `_call_coro`: the frame is set and reset, and what is raised gets the trace of the context in
  -- which it was raised.
  abbrev settle : Process X → ℕ → Outcome X × Process X → Payload X × Process X
  settle before n (returned v, p) =
      (success v, set_context p (record p.context { entry_frame = before.context.entry_frame }))
  settle before n (raised e, p) = (
    failure (
        attach world.machine e world.settings (world.stamp_at n).pid (world.traceback_at n)
          p.context),
    set_context p (record p.context { entry_frame = before.context.entry_frame }),
  )

  -- How the bodies of handlers run.
  module _ (run_body : Program X → Exec (Process X) X) where
    unfoldable pub call_coro : Program X → Process X → Payload X × Process X
    call_coro body p = settle p p.calls (
        run_body body
          (set_context p (record p.context { entry_frame = some (world.frame_at p.calls) })))

    -- `trace.enter`, the call, and `trace.leave` in the `finally`.
    unfoldable pub traced : List AtaskHop → Program X → Process X → Payload X × Process X
    traced chain body p =
        let (token, c) = enter (some chain) p.context in
        let (result, p') = call_coro body (set_context p c) in
        (result, set_context p' (leave token p'.context))

    -- The part that the three handlers share: the codec, the decoded content, the item of the
    -- registry, and the traced call of its coroutine. A content that is no request of three parts
    -- cannot be unpacked.
    abbrev call_item :
        List X
        → Dict X
        → List AtaskHop
        → Option (RegistryItem (Attribute X))
        → String
        → Exec (Process X) (Payload X)
    call_item argv kwargs chain none name = raise (job_not_found name)
    call_item argv kwargs chain (some item) name = elim (coro_of item) [
      | none ↦ raise (attribute_error (missing item))
      | some f ↦ λ p. let (result, p') = traced chain (f argv kwargs) p in (returned result, p')
    ]

    abbrev unpack :
        Manager (Attribute X) → String → Option (Payload X) → Exec (Process X) (Payload X)
    unpack registry name none = raise type_error
    unpack registry name (some (request argv kwargs chain)) =
        call_item argv kwargs chain (Registry.get name registry).0 name
    unpack registry name (some (success _)) = raise (other "ValueError")
    unpack registry name (some (failure _)) = raise (other "ValueError")

    unfoldable pub handle :
        Manager (Attribute X) → String → Option Bytes → Exec (Process X) (Payload X)
    handle registry name content p =
        if p.has_codec
        then unpack registry name (decode world.pickle content) p
        else raise no_codec_registered p

    unfoldable pub on_request : String → Option Bytes → Exec (Process X) (Option Bytes)
    on_request name content p =
        (handle p.rpc_registry name content >>= λ result q.
        (returned (encode world.pickle result), q))
          p

    unfoldable pub on_event : String → Option Bytes → Exec (Process X) (Unit {0})
    on_event name content p = (handle p.queue_registry name content >>= log_failure name) p

    unfoldable pub on_broadcast : String → Option Bytes → Exec (Process X) (Unit {0})
    on_broadcast name content p = (handle p.broadcast_registry name content >>= log_failure name) p

    -- The closures that `activate` registered.
    unfoldable pub run_callback : Callback → Option Bytes → Exec (Process X) (Option Bytes)
    run_callback callback content = elim callback.kind [
      | rpc ↦ on_request callback.name content
      | queue ↦ on_event callback.name content >>= λ _ q. (returned none, q)
      | broadcast ↦ on_broadcast callback.name content >>= λ _ q. (returned none, q)
    ]

    abbrev run_listener : Callback → Option Bytes → Exec (Process X) (Unit {0})
    run_listener callback content = run_callback callback content >>= λ _ q. (returned tt, q)

    -- The bodies of `Router.send_request`, `Router.send_event` and `Router.send_broadcast`.
    unfoldable pub send_bound :
        Kind → String → List X → Dict X → Option ℕ → List AtaskHop → Exec (Process X) X
    send_bound rpc name argv kwargs timeout chain p =
        with_client
          (λ client.
            send_request run_callback (λ _. client) world.wait_for name
              (encode world.pickle (request argv kwargs chain)) timeout
            >>= receive_response)
          p.transport p
    send_bound queue name argv kwargs timeout chain p =
        with_client
          (λ client.
            publish_event run_listener (λ _. client) name
              (encode world.pickle (request argv kwargs chain))
            >>= λ _ q. (returned world.none_value, q))
          p.transport p
    send_bound broadcast name argv kwargs timeout chain p =
        with_client
          (λ client.
            publish_broadcast run_listener (λ _. client) name
              (encode world.pickle (request argv kwargs chain))
            >>= λ _ q. (returned world.none_value, q))
          p.transport p

    -- The calls of the three by a stub or a reference: `TypeError` where an argument has two values.
    unfoldable pub send :
        Kind → String → List X → Dict X → Option ℕ → List AtaskHop → Exec (Process X) X
    send kind name argv kwargs timeout chain p =
        if can_bind kind kwargs
        then send_bound kind name argv kwargs timeout chain p
        else raise type_error p

    -- The stub `aioref`: the hop is pushed, and the call goes out with the longer chain.
    unfoldable pub aioref : Kind → String → List X → Dict X → Option ℕ → Exec (Process X) X
    aioref kind name argv kwargs timeout p =
        continue
          (push_hop world.machine world.stub_settings name world.namespace kind
            (world.stamp_at p.calls) (world.site_at p.calls) p.context)
          (send kind name argv kwargs timeout) (record p { calls = suc p.calls })

    unfoldable pub run_with : Program X → Exec (Process X) X
    run_with (finish v) p = (returned v, p)
    run_with (throw e) p = (raised e, p)
    run_with (await_atask kind name argv kwargs timeout next) p =
        let (result, p') = aioref kind name argv kwargs timeout p in run_with (next result) p'

  -- A program that awaits atasks that await atasks, `depth` levels deep; what is deeper is left to
  -- `beyond`.
  unfoldable pub run : (Program X → Exec (Process X) X) → ℕ → Program X → Exec (Process X) X
  run beyond zero = run_with beyond
  run beyond (suc depth) = run_with (run beyond depth)
