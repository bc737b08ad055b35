-- ===== src/Calls/Restores/Stubs.antt =====
-- Calls and the context variables: the stubs, and the programs that await them.
use atasks.Prelude.{
  ℕ, zero, suc, String, refl, ◌∙◌, Option, none, some, List, [], ◌∷◌, arith, Option-cases, inl, inr,
}
use atasks.Prelude.Dict
use atasks.Prelude.Dict.{Dict}
use atasks.Hop.{Kind, rpc, queue, broadcast, AtaskHop}
use atasks.Errors.{Exec, Outcome, returned, raised, for_each, continue}
use atasks.Trace.{push_hop}
use atasks.Codec.{Bytes, Payload, request, success, failure, decode}
use atasks.Transport.Loopback.{
  Loopback, send_request, publish_event, publish_broadcast, subscribers,
}
use atasks.Router.{Callback}
use atasks.Calls.{
  Program, finish, throw, await_atask, Process, World, run_callback, run_listener, receive_response,
  send, send_bound, aioref, run_with, run, unpack_response, with_client,
}
use atasks.Calls.Restores.{IsFaithful, Restores, Restores-bind, run_callback-Restores}

module _ {X : Type 0} where
  Restores-for_each :
      {A : Type 0} (body : A → Exec (Process X) (Unit {0}))
      → ((a : A) → Restores (body a))
      → (xs : List A) → Restores (for_each xs body)
  unfolding for_each
  Restores-for_each body each [] = record { at = λ p. refl }
  Restores-for_each body each (a ∷ rest) =
      Restores-bind (body a) (λ _. for_each rest body) (each a)
        (λ _. Restores-for_each body each rest)

  unpack_response-Restores : (o : Option (Payload X)) → Restores (unpack_response o)
  unpack_response-Restores none = record { at = λ p. refl }
  unpack_response-Restores (some (request _ _ _)) = record { at = λ p. refl }
  unpack_response-Restores (some (success _)) = record { at = λ p. refl }
  unpack_response-Restores (some (failure _)) = record { at = λ p. refl }

module _ {X : Type 0} (world : World X) (faithful : IsFaithful world)
    (run_body : Program X → Exec (Process X) X)
    (body-Restores : (body : Program X) → Restores (run_body body)) where
  receive_response-Restores : (response : Option Bytes) → Restores (receive_response world response)
  unfolding receive_response
  receive_response-Restores response = record {
    at = λ p. ground (arith, (unpack_response-Restores (decode world.pickle response)).at p);
  }

  send_request-Restores :
      (client : Loopback Callback) (name : String) (content : Option Bytes) (timeout : Option ℕ)
      → Restores (
          send_request
            (run_callback world run_body)
            (λ _. client)
            world.wait_for
            name
            content
            timeout)
  unfolding send_request
  send_request-Restores client name content none = record {
    at = λ p. elim (Option-cases (Dict.lookup name client.request_callbacks)) [
      | inl e ↦ ground (arith, e)
      | inr (c, e) ↦
          ground (arith, e, (run_callback-Restores world run_body body-Restores c content).at p)
    ];
  }
  send_request-Restores client name content (some t) = record {
    at = λ p. elim (Option-cases (Dict.lookup name client.request_callbacks)) [
      | inl e ↦ ground (arith, e)
      | inr (c, e) ↦ ground (
        arith,
        e,
        (run_callback-Restores world run_body body-Restores c content).at p,
        faithful.wait_for_context t (run_callback world run_body c content p),
      )
    ];
  }

  run_listener-Restores :
      (callback : Callback) (content : Option Bytes)
      → Restores (run_listener world run_body callback content)
  run_listener-Restores callback content =
      Restores-bind (run_callback world run_body callback content) (λ _ q. (returned tt, q))
        (run_callback-Restores world run_body body-Restores callback content)
        (λ _. record { at = λ q. refl })

  publish_event-Restores :
      (client : Loopback Callback) (name : String) (content : Option Bytes)
      → Restores (publish_event (run_listener world run_body) (λ _. client) name content)
  unfolding publish_event
  publish_event-Restores client name content = record {
    at = λ p. elim (Option-cases (Dict.lookup name client.event_callbacks)) [
      | inl e ↦ ground (arith, e)
      | inr (c, e) ↦ ground (arith, e, (run_listener-Restores c content).at p)
    ];
  }

  publish_broadcast-Restores :
      (client : Loopback Callback) (name : String) (content : Option Bytes)
      → Restores (publish_broadcast (run_listener world run_body) (λ _. client) name content)
  unfolding publish_broadcast
  publish_broadcast-Restores client name content = record {
    at =
        (Restores-for_each (λ c. run_listener world run_body c content)
          (λ c. run_listener-Restores c content) (subscribers client name)).at;
  }

  with_client-Restores :
      (f : Loopback Callback → Exec (Process X) X)
      → ((client : Loopback Callback) → Restores (f client))
      → (o : Option (Loopback Callback)) → Restores (with_client f o)
  with_client-Restores f each none = record { at = λ p. refl }
  with_client-Restores f each (some client) = record {
    at = λ p. ground (arith, (each client).at p);
  }

  send_bound-Restores :
      (kind : Kind) (name : String) (argv : List X) (kwargs : Dict X) (timeout : Option ℕ)
      (chain : List AtaskHop)
      → Restores (send_bound world run_body kind name argv kwargs timeout chain)
  unfolding send_bound
  send_bound-Restores rpc name argv kwargs timeout chain = record {
    at = λ p.
        (with_client-Restores _
            (λ client.
              Restores-bind _ _ (send_request-Restores client name _ timeout)
                receive_response-Restores)
            p.transport).at
          p;
  }
  send_bound-Restores queue name argv kwargs timeout chain = record {
    at = λ p.
        (with_client-Restores _
            (λ client.
              Restores-bind _ _ (publish_event-Restores client name _)
                (λ _. record { at = λ q. refl }))
            p.transport).at
          p;
  }
  send_bound-Restores broadcast name argv kwargs timeout chain = record {
    at = λ p.
        (with_client-Restores _
            (λ client.
              Restores-bind _ _ (publish_broadcast-Restores client name _)
                (λ _. record { at = λ q. refl }))
            p.transport).at
          p;
  }

  send-Restores :
      (kind : Kind) (name : String) (argv : List X) (kwargs : Dict X) (timeout : Option ℕ)
      (chain : List AtaskHop)
      → Restores (send world run_body kind name argv kwargs timeout chain)
  unfolding send
  send-Restores kind name argv kwargs timeout chain = record {
    at = λ p. ground (arith, (send_bound-Restores kind name argv kwargs timeout chain).at p);
  }

  pub aioref-Restores :
      (kind : Kind) (name : String) (argv : List X) (kwargs : Dict X) (timeout : Option ℕ)
      → Restores (aioref world run_body kind name argv kwargs timeout)
  unfolding aioref
  aioref-Restores kind name argv kwargs timeout = record {
    at = λ p.
        (pushed_Restores (
            push_hop world.machine world.stub_settings name world.namespace kind
              (world.stamp_at p.calls) (world.site_at p.calls) p.context)).at
          (record p { calls = suc p.calls });
  }
    where
      pushed_Restores :
          (o : Outcome (List AtaskHop))
          → Restores (continue o (send world run_body kind name argv kwargs timeout))
      pushed_Restores (returned chain) = send-Restores kind name argv kwargs timeout chain
      pushed_Restores (raised e) = record { at = λ p. refl }

  pub run_with-Restores : (body : Program X) → Restores (run_with world run_body body)
  unfolding run_with
  run_with-Restores (finish v) = record { at = λ p. refl }
  run_with-Restores (throw e) = record { at = λ p. refl }
  run_with-Restores (await_atask kind name argv kwargs timeout next) = record {
    at = λ p.
        let (result, p') = aioref world run_body kind name argv kwargs timeout p in
        (run_with-Restores (next result)).at p'
        ∙ (aioref-Restores kind name argv kwargs timeout).at p;
  }

-- However deep it awaits atasks, whether it returns or raises, and whether the calls returned, raised
-- or timed out, a coroutine leaves the chain and the entry frame of its task as it found them.
pub run-Restores :
    {X : Type 0} (world : World X)
    → IsFaithful world
    → (beyond : Program X → Exec (Process X) X) → ((body : Program X) → Restores (beyond body))
    → (depth : ℕ) (body : Program X) → Restores (run world beyond depth body)
unfolding run
run-Restores world faithful beyond h zero body = run_with-Restores world faithful beyond h body
run-Restores world faithful beyond h (suc depth) body =
    run_with-Restores world faithful (run world beyond depth)
      (run-Restores world faithful beyond h depth) body
