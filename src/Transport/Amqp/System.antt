-- ===== src/Transport/Amqp/System.antt =====
-- atasks/transport/backends/amqp.py, several processes on one broker: each has a transport that
-- sends requests by `send_request` and serves those of the others by `_on_message`. The broker
-- hands messages over in any order, and as often as it likes.
pub mod Calls
pub mod Served
pub mod Origin
use atasks.Prelude.{ℕ, ◌<◌, suc, String, ◌≡◌, ◌⊎◌, false, Option, List, [], ◌∷◌, ◌==◌}
use atasks.Codec.{Bytes}
use atasks.Errors.{Exec}
use atasks.Transport.Amqp.Requests
use atasks.Transport.Amqp.Requests.{
  Requests, begin_request, on_response_message, set_at, no_requests,
}
use atasks.Transport.Amqp.Handlers.{Message, Delivery, Serving, on_message}

-- What `send_request` publishes, with the process that sends it and the number of its call there.
-- The routing key leads to the queue of the name.
pub record Request : Type 0 where
  pub sender : ℕ
  pub call : ℕ
  pub correlation_id : String
  pub name : String
  pub content : Bytes

-- What `_on_message` publishes.
pub record Response : Type 0 where
  pub routing_key : String
  pub correlation_id : String
  pub body : Bytes

-- The application of a process, and the responses that the process gave to its channel.
pub record ServingProcess (S : Type 0) : Type 0 where
  pub responses : List Response
  pub application : S

abbrev pub Among : {A : Type 0} → A → List A → Type 0
Among a [] = ⊥
Among a (b ∷ rest) = (b ≡ a) ⊎ Among a rest

abbrev pub on_application : {S A : Type 0} → Exec S A → Exec (ServingProcess S) A
on_application method p =
    let (result, s) = method p.application in (result, record p { application = s })

-- A response counts as given also where `publish` raises: the broker may have it all the same.
abbrev pub keeping_responses : {S : Type 0} → Delivery S → Delivery (ServingProcess S)
keeping_responses channel = record {
  process = λ message. on_application (channel.process message);
  no_body = channel.no_body;
  publish = λ key id body p.
      let (result, s) = channel.publish key id body p.application in
      (
        result,
        record {
          responses = record { routing_key = key; correlation_id = id; body = body } ∷ p.responses;
          application = s;
        },
      );
}

-- All processes, and the requests that were handed to the broker.
pub record System (S : Type 0) : Type 0 where
  pub processes : ℕ → Serving (ServingProcess S)
  pub requests : List Request

abbrev pub Nothing : String → Bytes → Type 0
Nothing _ _ = ⊥

abbrev pub message_of : (ℕ → String) → Request → Message
message_of response_queue m = record {
  correlation_id = m.correlation_id;
  reply_to = response_queue m.sender;
  body = m.content;
}

module _ {S : Type 0} where
  abbrev pub with_process : System S → ℕ → Serving (ServingProcess S) → System S
  with_process t i p = record t { processes = set_at t.processes i p }

  abbrev pub with_requests : System S → ℕ → Requests → System S
  with_requests t i r = with_process t i (record (t.processes i) { requests = r })

  -- `send_request` up to the call of `publish`, from when on the broker may have the request.
  unfoldable pub hand_over : ℕ → String → Option ℕ → String → Bytes → System S → System S
  hand_over i name timeout id content t =
      let r = (t.processes i).requests in
      record (with_requests t i (begin_request name timeout id r)) {
        requests =
            record {
              sender = i;
              call = r.next;
              correlation_id = id;
              name = name;
              content = content;
            }
            ∷ t.requests;
      }

  unfoldable pub receive : ℕ → Response → System S → System S
  receive i a t =
      with_requests t i (on_response_message a.correlation_id a.body (t.processes i).requests)

  -- All transports were just made.
  abbrev pub all_new : (ℕ → S) → System S
  all_new applications = record {
    processes = λ i. record {
      requests = no_requests;
      logged = 0;
      services = record { responses = []; application = applications i };
    };
    requests = [];
  }

-- `channel` is what `aio_pika` does in each process, `handler` the callback that a process has
-- registered for a name, and `response_queue` the exclusive queue of a process.
module _ {S : Type 0} (channel : ℕ → Delivery S)
    (handler : ℕ → String → Bytes → Exec S (Option Bytes)) (response_queue : ℕ → String) where
  unfoldable pub serve_request : ℕ → Request → System S → System S
  serve_request j m t =
      with_process t j
        (on_message (keeping_responses (channel j)) (λ body. on_application (handler j m.name body))
          (message_of response_queue m) (t.processes j)).1

  -- `goes_on` is a step of one process that neither begins a call nor receives a response;
  -- `computes` is whatever else the application of a process does.
  pub data Step : System S → System S → Type 0 where
    sends :
        {t : System S} (i : ℕ) (name : String) (timeout : Option ℕ) (id : String) (content : Bytes)
        → (t.processes i).requests.locked ≡ false
        → ((f : ℕ)
            → f < (t.processes i).requests.next
            → (((t.processes i).requests.callers f).correlation_id == id) ≡ false)
        → Step t (hand_over i name timeout id content t)
    serves :
        {t : System S} (j : ℕ) (m : Request) → Among m t.requests → Step t (serve_request j m t)
    receives :
        {t : System S} (i j : ℕ) (a : Response)
        → Among a (t.processes j).services.responses
        → a.routing_key ≡ response_queue i
        → Step t (receive i a t)
    goes_on :
        {t : System S} (i : ℕ) (r : Requests)
        → Requests.Step Nothing (t.processes i).requests r
        → r.next ≡ (t.processes i).requests.next
        → Step t (with_requests t i r)
    computes :
        {t : System S} (i : ℕ) (s : S)
        → Step t (
            with_process t i (record (t.processes i) {
              services = record (t.processes i).services { application = s };
            }))

  pub data Reach : System S → Type 0 where
    here : (applications : ℕ → S) → Reach (all_new applications)
    later : {t u : System S} → Reach t → Step t u → Reach u
