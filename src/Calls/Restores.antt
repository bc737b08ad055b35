-- ===== src/Calls/Restores.antt =====
-- Calls and the context variables of the task that makes them: the transport and the handlers.
pub mod Stubs
use atasks.Prelude.{
  ℕ, zero, suc, String, ◌≡◌, ◌≢◌, refl, ◌∙◌, sym, ap, Bool, true, false, Option, none, some, List,
  [], ◌∷◌, arith, Bool-cases, Option-cases, inl, inr,
}
use atasks.Prelude.Dict
use atasks.Prelude.Dict.{Dict}
use atasks.Hop.{Kind, rpc, queue, broadcast, AtaskHop}
use atasks.Errors.{
  Exec, Outcome, returned, raised, raise, PyException, for_each, ◌>>=◌, ◌>>◌, continue,
}
use atasks.Registry.{Manager, RegistryItem}
use atasks.Trace.{Context, enter, leave, push_hop}
use atasks.Codec.{Bytes, Payload, request, success, failure, Pickle, encode, decode, is_true}
use atasks.Transport.Loopback.{
  Loopback, send_request, publish_event, publish_broadcast, subscribers,
}
use atasks.Router.{Callback}
use atasks.Calls.{
  Program, finish, throw, await_atask, Attribute, Process, World, call_coro, traced, handle,
  call_item, unpack, on_request, on_event, on_broadcast, run_callback, run_listener,
  receive_response, send, aioref, run_with, run, coro_of, log_failure, unpack_response,
}

-- What the program relies on: a pickle that is loaded is what was dumped, and is not empty; and
-- `asyncio.wait_for` runs the coroutine in a task with its own copy of the context.
pub record IsFaithful {X : Type 0} (world : World X) : Type 0 where
  pub loads-dumps :
      (x : Payload X) (bytes : Bytes)
      → world.pickle.dumps x ≡ returned bytes
      → world.pickle.loads bytes ≡ returned x
  pub dumps_nonempty : (x : Payload X) → world.pickle.dumps x ≢ returned []
  pub wait_for_context :
      (timeout : ℕ) (r : Outcome (Option Bytes) × Process X)
      → (world.wait_for timeout r).1.context ≡ r.1.context

-- An action that leaves the context as it was.
pub record Restores {X A : Type 0} (m : Exec (Process X) A) : Type 0 where
  pub at : (p : Process X) → (m p).1.context ≡ p.context

module _ {X A B : Type 0} where
  Restores-bind :
      (m : Exec (Process X) A) (f : A → Exec (Process X) B)
      → Restores m
      → ((a : A) → Restores (f a))
      → Restores (m >>= f)
  Restores-bind m f km kf = record { at = λ p. go p (m p) (km.at p) }
    where
      go :
          (p : Process X) (r : Outcome A × Process X)
          → r.1.context ≡ p.context
          → (continue r.0 f r.1).1.context ≡ p.context
      go p (returned a, q) e = (kf a).at q ∙ e
      go p (raised x, q) e = e

module _ {X : Type 0} (world : World X) (run_body : Program X → Exec (Process X) X)
    (body-Restores : (body : Program X) → Restores (run_body body)) where
  call_coro-context :
      (body : Program X) (p : Process X) → (call_coro world run_body body p).1.context ≡ p.context
  unfolding call_coro
  call_coro-context body p = ground (
    arith,
    (body-Restores body).at
        (record p { context = record p.context { entry_frame = some (world.frame_at p.calls) } }),
  )

  traced-context :
      (chain : List AtaskHop) (body : Program X) (p : Process X)
      → (traced world run_body chain body p).1.context ≡ p.context
  unfolding traced enter leave
  traced-context chain body p =
      ground
        (arith, call_coro-context body (record p { context = record p.context { chain = chain } }))

  call_item-Restores :
      (argv : List X) (kwargs : Dict X) (chain : List AtaskHop)
      (item : Option (RegistryItem (Attribute X))) (name : String)
      → Restores (call_item world run_body argv kwargs chain item name)
  call_item-Restores argv kwargs chain none name = record { at = λ p. refl }
  call_item-Restores argv kwargs chain (some item) name = elim (Option-cases (coro_of item)) [
    | inl e ↦ record { at = λ p. ground (arith, e) }
    | inr (f, e) ↦ record { at = λ p. ground (arith, e, traced-context chain (f argv kwargs) p) }
  ]

  unpack-Restores :
      (registry : Manager (Attribute X)) (name : String) (content : Option (Payload X))
      → Restores (unpack world run_body registry name content)
  unpack-Restores registry name none = record { at = λ p. refl }
  unpack-Restores registry name (some (request argv kwargs chain)) =
      call_item-Restores argv kwargs chain _ name
  unpack-Restores registry name (some (success _)) = record { at = λ p. refl }
  unpack-Restores registry name (some (failure _)) = record { at = λ p. refl }

  handle-Restores :
      (registry : Manager (Attribute X)) (name : String) (content : Option Bytes)
      → Restores (handle world run_body registry name content)
  unfolding handle
  handle-Restores registry name content = record {
    at = λ p. ground (arith, (unpack-Restores registry name (decode world.pickle content)).at p);
  }

  log_failure-Restores : (name : String) (result : Payload X) → Restores (log_failure name result)
  log_failure-Restores name (failure e) = record { at = λ p. refl }
  log_failure-Restores name _ = record { at = λ p. refl }

  run_callback-Restores :
      (callback : Callback) (content : Option Bytes)
      → Restores (run_callback world run_body callback content)
  unfolding run_callback on_request on_event on_broadcast
  run_callback-Restores callback content = record {
    at = λ p. ground (
      arith,
      (handle-Restores p.rpc_registry callback.name content).at p,
      (Restores-bind (handle world run_body p.queue_registry callback.name content)
            (log_failure callback.name) (handle-Restores _ _ _) (log_failure-Restores _)).at
          p,
      (Restores-bind (handle world run_body p.broadcast_registry callback.name content)
            (log_failure callback.name) (handle-Restores _ _ _) (log_failure-Restores _)).at
          p,
    );
  }
