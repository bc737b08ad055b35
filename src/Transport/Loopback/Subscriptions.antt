-- ===== src/Transport/Loopback/Subscriptions.antt =====
-- `LoopbackTransport` as the transport that a router drives.
use atasks.Prelude.{
  String, ◌≡◌, refl, Bool, true, false, List, [], ◌∷◌, ◌++◌, arith, is_some, if◌then◌else◌, eq_iff,
}
use atasks.Prelude.Dict
use atasks.Prelude.Dict.{lookup-insert, lookup-erase}
use atasks.Hop.{Kind, rpc, queue, broadcast}
use atasks.Errors.{Exec, returned}
use atasks.Transport.{Methods, IsSubscribing, same}
use atasks.Transport.Loopback.{
  Loopback, register_request_callback, unregister_request_callback, register_event_callback,
  unregister_event_callback, register_broadcast_callback, unregister_broadcast_callback,
  subscribers,
}

module _ {C : Type 0} where
  -- The methods by kind.
  abbrev pub register_callback : Kind → String → C → Exec (Loopback C) (Unit {0})
  register_callback rpc name c = register_request_callback name c
  register_callback queue name c = register_event_callback name c
  register_callback broadcast name c = register_broadcast_callback name c

  abbrev pub unregister_callback : Kind → String → Exec (Loopback C) (Unit {0})
  unregister_callback rpc name = unregister_request_callback name
  unregister_callback queue name = unregister_event_callback name
  unregister_callback broadcast name = unregister_broadcast_callback name

  abbrev pub methods : Methods C (Loopback C)
  methods = record { register = register_callback; unregister = unregister_callback }

  abbrev is_nonempty : List C → Bool
  is_nonempty [] = false
  is_nonempty (_ ∷ _) = true

  -- Whether a message of the kind under the name reaches a callback.
  abbrev pub has_callback : Loopback C → Kind → String → Bool
  has_callback t rpc n = is_some (Dict.lookup n t.request_callbacks)
  has_callback t queue n = is_some (Dict.lookup n t.event_callbacks)
  has_callback t broadcast n = is_nonempty (subscribers t n)

  nonempty-snoc : (cs : List C) (c : C) → is_nonempty (cs ++ c ∷ []) ≡ true
  nonempty-snoc [] c = refl
  nonempty-snoc (_ ∷ cs) c = refl

  register_returns :
      (k : Kind) (n : String) (c : C) (t : Loopback C) → (register_callback k n c t).0 ≡ returned tt
  unfolding register_request_callback register_event_callback register_broadcast_callback
  register_returns rpc n c t = refl
  register_returns queue n c t = refl
  register_returns broadcast n c t = refl

  unregister_returns :
      (k : Kind) (n : String) (t : Loopback C) → (unregister_callback k n t).0 ≡ returned tt
  unfolding unregister_request_callback unregister_event_callback unregister_broadcast_callback
  unregister_returns rpc n t = refl
  unregister_returns queue n t = refl
  unregister_returns broadcast n t = ground arith

  has_callback-register :
      (k : Kind) (n : String) (c : C) (t : Loopback C) (k' : Kind) (n' : String)
      → has_callback (register_callback k n c t).1 k' n'
        ≡ (if same k n k' n' then true else has_callback t k' n')
  unfolding register_request_callback register_event_callback register_broadcast_callback
  has_callback-register rpc n c t rpc n' = ground (arith, lookup-insert n' n c t.request_callbacks)
  has_callback-register queue n c t queue n' =
      ground (arith, lookup-insert n' n c t.event_callbacks)
  has_callback-register broadcast n c t broadcast n' =
      let cs = subscribers t n ++ c ∷ [] in
      ground (arith, lookup-insert n' n cs t.broadcast_callbacks, nonempty-snoc (subscribers t n) c)
  has_callback-register k n c t k' n' = ground arith

  has_callback-unregister :
      (k : Kind) (n : String) (t : Loopback C) (k' : Kind) (n' : String)
      → has_callback (unregister_callback k n t).1 k' n'
        ≡ (if same k n k' n' then false else has_callback t k' n')
  unfolding unregister_request_callback unregister_event_callback unregister_broadcast_callback
  has_callback-unregister rpc n t rpc n' = ground (arith, lookup-erase n' n t.request_callbacks)
  has_callback-unregister queue n t queue n' = ground (arith, lookup-erase n' n t.event_callbacks)
  has_callback-unregister broadcast n t broadcast n' =
      ground (arith, lookup-insert n' n [] t.broadcast_callbacks, eq_iff n n')
  has_callback-unregister k n t k' n' = ground arith

  -- Each of the six methods returns; a registration makes messages of its kind and name reach a
  -- callback, an unregistration makes them reach none, and every other kind and name is as before.
  pub methods-IsSubscribing : IsSubscribing methods has_callback
  methods-IsSubscribing = record {
    register_returns = register_returns;
    subscribed-register = has_callback-register;
    unregister_returns = unregister_returns;
    subscribed-unregister = has_callback-unregister;
  }
