-- ===== src/Tests/HandlerRuns.antt =====
-- Runs of the callbacks of the queues, on a broker that keeps the responses that it took.
use atasks.Prelude.{String, ◌≡◌, refl, Option, none, some, List, [], ◌∷◌, ◌==◌, if◌then◌else◌}
use atasks.Codec.{Bytes}
use atasks.Errors.{Exec, returned, type_error, exception, other, pure, raise}
use atasks.Transport.Amqp.Requests.{
  Requests, begin_request, after_publish, published, no_requests, publish, fail_awaiting_requests,
}
use atasks.Transport.Amqp.Handlers.{Message, Delivery, Serving, on_message, on_event_message}

abbrev Taken : Type 0
Taken = List (String × Bytes)

abbrev take_response : String → String → Bytes → Exec Taken (Unit {0})
take_response reply_to id body =
    if reply_to == "gone" then raise (other "DeliveryError") else λ s. (returned tt, (id, body) ∷ s)

abbrev delivery : Delivery Taken
delivery = record {
  process = λ _. pure tt;
  no_body = exception type_error;
  publish = take_response;
}

abbrev Anything : String → Bytes → Type 0
Anything _ _ = Unit

-- One request of its own is in flight.
abbrev in_flight : Requests
in_flight = after_publish 0 published none (begin_request "job" none "c1" no_requests)

abbrev serving : Serving Taken
serving = record { requests = in_flight; logged = 0; services = [] }

abbrev message_to : String → Message
message_to reply_to = record { correlation_id = "r5"; reply_to = reply_to; body = 3 ∷ [] }

abbrev double : Bytes → Exec Taken (Option Bytes)
double [] = raise (other "ValueError")
double (x ∷ xs) = pure (some (x ∷ x ∷ xs))

-- A response that is `None` is not published, and one of the process's own requests is given up.
unencoded :
    (on_message delivery (λ _. pure none) (message_to "here") serving).1
    ≡ record serving { requests = fail_awaiting_requests in_flight; logged = 1 }
unfolding on_message
unencoded = refl

-- A handler that raises answers nothing.
unanswered :
    (on_message delivery (λ _. raise (other "ValueError")) (message_to "here") serving).1
    ≡ record serving { logged = 1 }
unfolding on_message
unanswered = refl

logged_event :
    (on_event_message delivery (λ _. raise (other "ValueError")) (message_to "") serving).1.logged
    ≡ 1
unfolding on_event_message
logged_event = refl
