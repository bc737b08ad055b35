-- ===== src/Transport/Amqp/Handlers.antt =====
-- atasks/transport/backends/amqp.py, the callbacks of the queues that a registration consumes from:
-- `_on_message`, which answers a request, and `_on_event_message` and `_on_broadcast_message`.
pub mod Laws
use atasks.Prelude.{ℕ, suc, String, Option, none, some}
use atasks.Codec.{Bytes}
use atasks.Errors.{Exec, Outcome, returned, raised, PyException, ◌>>=◌, ◌>>◌}
use atasks.Transport.Amqp.Requests.{Requests, fail_awaiting_requests}

pub record Message : Type 0 where
  pub correlation_id : String
  pub reply_to : String
  pub body : Bytes

-- What the callbacks use of `aio_pika`: `message.process()`, which acknowledges the message when its
-- block ends, what `Message(body=None)` raises, and `self._response_exchange.publish`, by the routing key, the correlation id and the body. `S` is the state of the broker and of the application.
pub record Delivery (S : Type 0) : Type 0 where
  pub process : Message → Exec S (Unit {0})
  pub no_body : PyException
  pub publish : String → String → Bytes → Exec S (Unit {0})

-- A transport that serves: its own requests in flight, and the number of exceptions that it logged.
pub record Serving (S : Type 0) : Type 0 where
  pub requests : Requests
  pub logged : ℕ
  pub services : S

module _ {S : Type 0} where
  abbrev pub on_services : {A : Type 0} → Exec S A → Exec (Serving S) A
  on_services method t = let (result, s) = method t.services in (result, record t { services = s })

  -- `logger.exception(...)`
  abbrev pub log_exception : Serving S → Serving S
  log_exception t = record t { logged = suc t.logged }

  -- What came of the handler of an event or a broadcast.
  abbrev pub log_raised : Outcome (Unit {0}) → Exec (Serving S) (Unit {0})
  log_raised (returned _) t = (returned tt, t)
  log_raised (raised _) t = (returned tt, log_exception t)

  -- What came of the publication of a response.
  abbrev pub after_response : Outcome (Unit {0}) → Exec (Serving S) (Unit {0})
  after_response (returned _) t = (returned tt, t)
  after_response (raised _) t =
      (returned tt, record (log_exception t) { requests = fail_awaiting_requests t.requests })

module _ {S : Type 0} (delivery : Delivery S) where
  -- The message is made and published.
  abbrev pub send_response : Message → Option Bytes → Exec S (Unit {0})
  send_response message none s = (raised delivery.no_body, s)
  send_response message (some body) s =
      delivery.publish message.reply_to message.correlation_id body s

  -- What came of the handler of a request.
  abbrev pub respond_with : Message → Outcome (Option Bytes) → Exec (Serving S) (Unit {0})
  respond_with message (returned response) t =
      let (result, t') = on_services (send_response message response) t in after_response result t'
  respond_with message (raised _) t = (returned tt, log_exception t)

  -- `_on_message`
  unfoldable pub on_message :
      (Bytes → Exec S (Option Bytes)) → Message → Exec (Serving S) (Unit {0})
  on_message callback message = on_services (delivery.process message) >> λ t.
      let (result, t') = on_services (callback message.body) t in respond_with message result t'

  -- `_on_event_message` and `_on_broadcast_message`.
  unfoldable pub on_event_message :
      (Bytes → Exec S (Unit {0})) → Message → Exec (Serving S) (Unit {0})
  on_event_message callback message = on_services (delivery.process message) >> λ t.
      let (result, t') = on_services (callback message.body) t in log_raised result t'
