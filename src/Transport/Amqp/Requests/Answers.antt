-- ===== src/Transport/Amqp/Requests/Answers.antt =====
-- What a lost connection and a response give to the callers of `send_request`.
use atasks.Prelude.{
  ℕ, ◌<◌, String, ◌≡◌, refl, ap, ◌⊎◌, inl, inr, true, [], not, ◌&&◌, ◌==◌, eq_iff, if◌then◌else◌,
  arith, Option-cases,
}
use atasks.Prelude.Dict
use atasks.Prelude.Dict.{Dict, lookup-insert, lookup-erase, lookup-nil}
use atasks.Codec.{Bytes}
use atasks.Errors.{exception, connection_lost}
use atasks.Transport.Amqp.Requests.{
  Future, pending, result, failed, dropped, is_done, ended, waiting, is_active, raises, Requests,
  fail_all, fail_awaiting_requests, on_response_message, conclude, Reach,
}
use atasks.Transport.Amqp.Requests.Tracking.{Reach-IsTracked}
use atasks.Transport.Amqp.Requests.Failing.{
  fail_all-cases, fail_all-lookup, fail_awaiting_requests_lem,
}

pending-not_done : (v : Future) → (v ≡ pending) ⊎ (is_done v ≡ true)
pending-not_done pending = inl refl
pending-not_done (result body) = inr refl
pending-not_done (failed e) = inr refl
pending-not_done dropped = inr refl

lost-conclude :
    (s : Requests) (f : ℕ) (id : String)
    → s.futures f ≡ failed (exception (connection_lost id))
    → ((conclude f s).callers f).phase ≡ ended (raises (exception (connection_lost id)))
unfolding conclude
lost-conclude s f id e = rw (e, conclude) (ground arith)

module _ {Responded : String → Bytes → Type 0} where
  -- When the connection is lost, in any reachable state, the table is empty afterwards, and every
  -- call that waits for an answer that has not come gets `ConnectionLostError` when it goes on: none
  -- is left waiting.
  pub lose-wakes :
      {s : Requests}
      → Reach Responded s
      → (f : ℕ) → (s.callers f).phase ≡ waiting
      → s.futures f ≡ pending
      → ((fail_awaiting_requests s).awaiting_requests ≡ [])
        × ((id : String) × (((conclude f (fail_awaiting_requests s)).callers f).phase
              ≡ ended (raises (exception (connection_lost id)))))
  lose-wakes {s} r f w p =
      let a : is_active (s.callers f).phase ≡ true = ap is_active w in
      let h = Reach-IsTracked r in
      let t = record s {
        awaiting_requests = [];
        futures = fail_all s.awaiting_requests s.futures;
      } in
      let d = fail_all-lookup s.awaiting_requests s.futures _ f (h.tracked f a p) in
      rw (fail_awaiting_requests_lem s) (
        refl,
        elim (fail_all-cases s.awaiting_requests s.futures f) [
          | inl same ↦ absurd (ground (arith, same, p, d))
          | inr (id, e) ↦ (id, lost-conclude t f id e)
        ],
      )

  -- A response that arrives in any reachable state gives its body to the one call that has its
  -- correlation id, has not ended and has no answer, and changes no other future and no call; where
  -- there is no such call, it changes no future at all.
  pub respond-delivers :
      {s : Requests}
      → Reach Responded s
      → (id : String) (body : Bytes) (f : ℕ) → f < s.next
      → ((on_response_message id body s).futures f ≡ (
          if (s.callers f).correlation_id == id
            && is_active (s.callers f).phase
            && not (is_done (s.futures f))
          then result body
          else s.futures f))
        × ((on_response_message id body s).callers f ≡ s.callers f)
  unfolding on_response_message
  respond-delivers {s} r id body f l =
      let h = Reach-IsTracked r in
      elim (Option-cases (Dict.lookup id s.awaiting_requests)) [
        | inl e ↦
            rw (e, on_response_message)
              (
                ground (
                  arith,
                  e,
                  h.tracked f,
                  pending-not_done (s.futures f),
                  eq_iff (s.callers f).correlation_id id,
                ),
                refl,
              )
        | inr (g, e) ↦
            let a = h.awaited id g e in
            rw (e, a.3, on_response_message)
              (
                ground (
                  arith,
                  e,
                  a,
                  h.tracked f,
                  h.single f g,
                  pending-not_done (s.futures f),
                  eq_iff (s.callers f).correlation_id id,
                ),
                refl,
              )
      ]
