-- ===== src/Transport/Amqp/System/Served.antt =====
-- One request that a process of a system serves.
use atasks.Prelude.{◌≡◌, refl, ◌⊎◌, inl, inr, ◌∷◌, ◌∙◌, ap, Option, some, Option-cases}
use atasks.Codec.{Bytes}
use atasks.Errors.{Exec, returned, Outcome-cases}
use atasks.Transport.Amqp.Requests.{fail_awaiting_requests}
use atasks.Transport.Amqp.Handlers.{Message, Delivery, Serving, on_message}
use atasks.Transport.Amqp.System.{keeping_responses, ServingProcess, on_application}

-- What a process does with a request: its own requests go on or are failed, and one response is
-- given to the channel, if any, which is what the handler returned.
module _ {S : Type 0} (channel : Delivery S) (callback : Bytes → Exec S (Option Bytes)) where
  abbrev pub Answers : Message → Serving (ServingProcess S) → Serving (ServingProcess S) → Type 0
  Answers message p q =
      (q.services.responses ≡ p.services.responses)
      ⊎ ((body : Bytes) × (s : S) × ((callback message.body s).0 ≡ returned (some body))
          × (q.services.responses
              ≡ record {
                routing_key = message.reply_to;
                correlation_id = message.correlation_id;
                body = body;
              }
                ∷ p.services.responses))

  pub on_message-cases :
      (message : Message) (p : Serving (ServingProcess S))
      → let q =
          (on_message
            (keeping_responses channel)
            (λ body. on_application (callback body))
            message
            p).1 in
        ((q.requests ≡ p.requests) ⊎ (q.requests ≡ fail_awaiting_requests p.requests))
        × Answers message p q
  unfolding on_message
  on_message-cases message p =
      let s = p.services.application in
      let s' = (channel.process message s).1 in
      let h = callback message.body s' in
      elim (Outcome-cases (channel.process message s).0) [
        | inr (x, e) ↦ rw e (inl refl, inl refl)
        | inl (u, e) ↦ elim (Outcome-cases h.0) [
          | inr (x, e') ↦ rw (e, e') (inl refl, inl refl)
          | inl (response, e') ↦ elim (Option-cases response) [
            | inl b ↦ rw (e, e', b) (inr refl, inl refl)
            | inr (body, b) ↦
                let given : h.0 ≡ returned (some body) = e' ∙ ap returned b in
                elim (Outcome-cases
                  (channel.publish message.reply_to message.correlation_id body h.1).0) [
                    | inl (u', e'') ↦ rw (e, given, e'') (inl refl, inr (body, s', given, refl))
                    | inr (x, e'') ↦ rw (e, given, e'') (inr refl, inr (body, s', given, refl))
                  ]
          ]
        ]
      ]
