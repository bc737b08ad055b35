-- ===== src/Tests/SystemRuns.antt =====
-- A run of two processes on one broker: the first one calls an atask that the second one serves.
use Prim.Native.String.{count}
use text.Mathlib.TextLemmas.{length-cons}
use atasks.Prelude.{
  ℕ, zero, suc, String, ◌≡◌, refl, ap, sym, ◌∙◌, inl, none, some, Option, [], ◌∷◌, arith,
}
use atasks.Prelude.Dict
use atasks.Codec.{Bytes}
use atasks.Errors.{Exec, exception, type_error, returned, pure}
use atasks.Transport.Amqp.Requests.{
  published, begin_request, after_publish, on_response_message, conclude, publish, resume,
}
use atasks.Transport.Amqp.Handlers.{Delivery, on_message}
use atasks.Transport.Amqp.System.{
  Among, Request, Response, System, with_requests, hand_over, serve_request, receive, all_new,
  sends, serves, receives, goes_on, Reach, here, later,
}
use atasks.Transport.Amqp.System.Origin.{answered-handled}

-- The application of a process is the number of the requests that it served.
abbrev channel : ℕ → Delivery ℕ
channel i = record {
  process = λ _. pure tt;
  no_body = exception type_error;
  publish = λ _ _ _. pure tt;
}

abbrev handler : ℕ → String → Bytes → Exec ℕ (Option Bytes)
handler j name content s = (returned (some (j ∷ content)), suc s)

abbrev response_queue : ℕ → String
response_queue zero = ""
response_queue (suc i) = String.◌∷◌ "q" (response_queue i)

count-response_queue : (i : ℕ) → count (response_queue i) ≡ i
count-response_queue zero = refl
count-response_queue (suc i) = length-cons "q" (response_queue i) ∙ ap suc (count-response_queue i)

response_queue-inj : (k l : ℕ) → response_queue k ≡ response_queue l → k ≡ l
response_queue-inj k l e = sym (count-response_queue k) ∙ ap count e ∙ count-response_queue l

abbrev asked : System ℕ
asked = hand_over 0 "job" none "c1" (7 ∷ []) (all_new (λ _. 0))

abbrev request : Request
request = record { sender = 0; call = 0; correlation_id = "c1"; name = "job"; content = 7 ∷ [] }

abbrev response : Response
response = record { routing_key = ""; correlation_id = "c1"; body = 1 ∷ 7 ∷ [] }

abbrev waits : System ℕ
waits = with_requests asked 0 (after_publish 0 published none (asked.processes 0).requests)

abbrev served : System ℕ
served = serve_request channel handler response_queue 1 request waits

abbrev heard : System ℕ
heard = receive 0 response served

abbrev finished : System ℕ
finished = with_requests heard 0 (conclude 0 (heard.processes 0).requests)

finished-Reach : Reach channel handler response_queue finished
unfolding hand_over serve_request receive begin_request after_publish on_message on_response_message
    conclude Dict.insert Dict.lookup
finished-Reach =
    later
      (later
        (later
          (later
            (later (here (λ _. 0))
              (sends 0 "job" none "c1" (7 ∷ []) refl (λ f l. absurd (omega arith))))
            (goes_on 0 _ (publish 0 published none refl) refl))
          (serves 1 request (inl refl)))
        (receives 0 1 response (inl refl) refl))
      (goes_on 0 _ (resume 0 refl) refl)

answered-handled_example :
    (m : Request) × Among m finished.requests
    × (m.sender ≡ 0)
    × (m.call ≡ 0)
    × (m.name ≡ ((finished.processes 0).requests.callers 0).name)
    × (j : ℕ) × (s : ℕ) × ((handler j m.name m.content s).0 ≡ returned (some (1 ∷ 7 ∷ [])))
unfolding hand_over serve_request receive begin_request after_publish on_message on_response_message
    conclude Dict.insert Dict.lookup
answered-handled_example =
    answered-handled channel handler response_queue response_queue-inj finished-Reach 0 0
      (1 ∷ 7 ∷ []) refl
