-- ===== src/Calls/Delivery/Stubs.antt =====
-- The three kinds of stub, from the call to what the caller gets.
use atasks.Prelude.{
  ℕ, suc, String, ◌≡◌, ◌∙◌, not, true, false, ◌&&◌, is_some, if◌then◌else◌, Option, none, some,
  List, [], arith, leb, ltb,
}
use atasks.Prelude.Lists.{length}
use atasks.Prelude.Dict
use atasks.Prelude.Dict.{Dict}
use atasks.Hop.{Kind, rpc, queue, broadcast, AtaskHop}
use atasks.Errors.{
  Exec, Outcome, returned, raised, exception, unknown_request_name, no_client_transport_registered,
  no_codec_registered, for_each, atask_stack_too_deep, type_error, ExceptionClass,
}
use atasks.Trace.{push_hop}
use atasks.Codec.{Bytes, request}
use atasks.Transport.Loopback.{
  Loopback, send_request, publish_event, publish_broadcast, subscribers,
}
use atasks.Router.{Callback}
use atasks.Calls.{Program, Process, World, send, send_bound, can_bind, aioref, unpack_response}
use atasks.Calls.Restores.{IsFaithful, Restores}
use atasks.Calls.Delivery.{Finds, inside, witnessed, send-rpc}

-- The process after the hop of a call is stamped.
abbrev pub stamped : {X : Type 0} → Process X → Process X
stamped p = record p { calls = suc p.calls }

-- What a coroutine does on the chain that a call sends.
abbrev pub ran :
    {X : Type 0}
    → World X
    → (Program X → Exec (Process X) X)
    → List AtaskHop
    → Program X
    → Process X
    → Outcome X × Process X
ran world f chain body p = f body (inside world chain (stamped p))

module _ {X : Type 0} (world : World X) (f : Program X → Exec (Process X) X) (name : String)
    (argv : List X) (kwargs : Dict X) (p : Process X) where
  -- What `push_hop` answers to this call.
  abbrev pub pushed : Kind → Outcome (List AtaskHop)
  pushed kind =
      push_hop world.machine world.stub_settings name world.namespace kind (world.stamp_at p.calls)
        (world.site_at p.calls) p.context

  aioref-send :
      (kind : Kind) (timeout : Option ℕ) (chain : List AtaskHop)
      → pushed kind ≡ returned chain
      → can_bind kind kwargs ≡ true
      → aioref world f kind name argv kwargs timeout p
        ≡ send_bound world f kind name argv kwargs timeout chain (stamped p)
  unfolding aioref send
  aioref-send kind timeout chain e b = rw (e, b)

  -- Why a stub raises before anything is sent, the first reason that holds being the one given.
  abbrev pub refusal : Kind → ExceptionClass
  refusal kind =
      if leb world.stub_settings.max_trace_depth (length p.context.chain)
      then atask_stack_too_deep world.stub_settings.max_trace_depth world.namespace name
      else if not (can_bind kind kwargs)
      then type_error
      else if is_some p.transport
      then no_codec_registered
      else no_client_transport_registered

  -- A stub of any kind that is called on a chain of the maximum depth of its router or longer, with
  -- a keyword argument that has the name of a parameter of the method that sends, in a namespace
  -- without a transport, or in one without a codec, raises, and nothing is sent or run:
  -- `AtaskStackTooDeep` where the chain is that long, else `TypeError` where an argument has two
  -- values, else `NoClientTransportRegistered` where there is no transport, else
  -- `NoCodecRegistered`.
  pub await-unready :
      (kind : Kind) (timeout : Option ℕ)
      → (ltb (length p.context.chain) world.stub_settings.max_trace_depth
          && can_bind kind kwargs
          && is_some p.transport
          && p.has_codec)
        ≡ false
      → aioref world f kind name argv kwargs timeout p
        ≡ (raised (exception (refusal kind)), stamped p)
  unfolding aioref push_hop send send_bound
  await-unready rpc timeout h = ground arith
  await-unready queue timeout h = ground arith
  await-unready broadcast timeout h = ground arith

  -- Where nobody in the process handles the name, a stub whose hop is accepted raises
  -- `UnknownRequestName` for an atask, whatever its timeout, and returns `None` for the other two
  -- kinds, the event or the broadcast being dropped; no coroutine runs. No keyword argument has the
  -- name of a parameter of the three methods that send.
  pub await-unserved :
      (timeout : Option ℕ) (chain₁ chain₂ chain₃ : List AtaskHop) (client : Loopback Callback)
      → pushed rpc ≡ returned chain₁
      → pushed queue ≡ returned chain₂
      → pushed broadcast ≡ returned chain₃
      → can_bind rpc kwargs ≡ true
      → can_bind queue kwargs ≡ true
      → can_bind broadcast kwargs ≡ true
      → p.transport ≡ some client
      → p.has_codec ≡ true
      → Dict.lookup name client.request_callbacks ≡ none
      → Dict.lookup name client.event_callbacks ≡ none
      → subscribers client name ≡ []
      → (aioref world f rpc name argv kwargs timeout p
          ≡ (raised (exception (unknown_request_name name)), stamped p))
        × (aioref world f queue name argv kwargs timeout p ≡ (returned world.none_value, stamped p))
        × (aioref world f broadcast name argv kwargs timeout p
            ≡ (returned world.none_value, stamped p))
  unfolding send_bound send_request publish_event publish_broadcast for_each
  await-unserved timeout chain₁ chain₂ chain₃ client e₁ e₂ e₃ b₁ b₂ b₃ connected codec none₁ none₂
        none₃ =
      (
        aioref-send rpc timeout chain₁ e₁ b₁ ∙ ground arith,
        aioref-send queue timeout chain₂ e₂ b₂ ∙ ground arith,
        aioref-send broadcast timeout chain₃ e₃ b₃ ∙ ground arith,
      )

module _ {X : Type 0} (world : World X) (faithful : IsFaithful world)
    (f : Program X → Exec (Process X) X) (f-Restores : (b : Program X) → Restores (f b))
    (name : String) (argv : List X) (kwargs : Dict X) (client : Loopback Callback)
    (body : List X → Dict X → Program X) (p : Process X) (chain : List AtaskHop) where
  -- Awaiting an atask that the process serves itself gives what its coroutine did: what it returned
  -- is returned and what it raised is raised, with the trace of the chain that was sent unless it
  -- had one; the process is as the coroutine left it, and the caller's context as it was. There is
  -- no timeout, the hop is accepted, no keyword argument has the name of a parameter of
  -- `send_request`, the namespace has a codec, and the call and what comes of it can be encoded.
  pub await-rpc :
      (bytes bytes' : Bytes)
      → pushed world f name argv kwargs p rpc ≡ returned chain
      → can_bind rpc kwargs ≡ true
      → p.transport ≡ some client
      → p.has_codec ≡ true
      → Dict.lookup name client.request_callbacks ≡ some (record { kind = rpc; name = name })
      → Finds name body p.rpc_registry
      → world.pickle.dumps (request argv kwargs chain) ≡ returned bytes
      → world.pickle.dumps
          (witnessed world chain (stamped p) (ran world f chain (body argv kwargs) p).0)
        ≡ returned bytes'
      → aioref world f rpc name argv kwargs none p
        ≡ unpack_response
            (some (witnessed world chain (stamped p) (ran world f chain (body argv kwargs) p).0))
            (record (ran world f chain (body argv kwargs) p).1 { context = p.context })
  await-rpc bytes bytes' sent bound connected codec subscribed found dumped dumped' =
      aioref-send world f name argv kwargs p rpc none chain sent bound
      ∙ send-rpc world f f-Restores chain faithful name argv kwargs client body (stamped p) bytes
          bytes' connected codec subscribed found dumped dumped'
