-- ===== src/Transport/Amqp/Connection.antt =====
-- atasks/transport/backends/amqp.py, the connection of an `AMQPTransport` and its subscriptions:
-- `connect`, `disconnect`, `is_connected`, and the six methods that register and unregister a name.
-- `aio_pika` is a parameter: its objects are numbers, `B` is its state and the broker's. `C` are the
-- callbacks.
pub mod Subscriptions
pub mod Driven
pub mod Unsubscribing
pub mod Kept
pub mod Failure
pub mod Growth
pub mod Lifetime
use atasks.Prelude.{
  ℕ, String, Bool, true, false, not, ◌&&◌, Option, none, some, List, [], ◌∷◌, ◌==◌, is_some,
  if◌then◌else◌,
}
use atasks.Prelude.Dict
use atasks.Prelude.Dict.{Dict}
use atasks.Hop.{Kind, rpc, queue, broadcast}
use atasks.Errors.{
  Exec, Outcome, returned, raised, exception, attribute_error, continue, ◌>>=◌, ◌>>◌,
}
use atasks.Transport.{Methods, kind_eq}
use atasks.Transport.Amqp.Names.{routing_key, queue_name, is_durable}

-- The methods of `aio_pika` that the transport awaits; each may raise. The first number is the
-- object whose method it is.
pub record AioPika (C B : Type 0) : Type 0 where
  pub connect_robust : String → Exec B ℕ
  pub channel : ℕ → Exec B ℕ
  pub declare_exchange : ℕ → String → Exec B ℕ
  -- With the name, and whether the queue is durable; another one is exclusive.
  pub declare_queue : ℕ → String → Bool → Exec B ℕ
  pub declare_reply_queue : ℕ → Exec B ℕ
  pub bind : ℕ → ℕ → String → Exec B (Unit {0})
  pub set_qos : ℕ → Exec B (Unit {0})
  pub consume : ℕ → C → Exec B ℕ
  pub consume_responses : ℕ → Exec B ℕ
  pub cancel : ℕ → ℕ → Exec B (Unit {0})
  pub close : ℕ → Exec B (Unit {0})
  pub is_closed : ℕ → B → Bool
  pub name_of : ℕ → B → String

-- What `__init__` sets.
pub record Options : Type 0 where
  pub url : String
  pub request_exchange_name : String
  pub response_exchange_name : String
  pub event_exchange_name : String
  pub broadcast_exchange_name : String
  pub prefix : String
  pub queue : String

-- `attributes` are those that `connect` sets and `disconnect` deletes, and `locked` is `self._lock`.
pub record Amqp (B : Type 0) : Type 0 where
  pub options : Options
  pub attributes : Dict ℕ
  pub queues : Kind → Dict ℕ
  pub consumers : Kind → Dict ℕ
  pub locked : Bool
  pub broker : B

-- `_request_exchange`, `_event_exchange` and `_broadcast_exchange`.
abbrev pub exchange_attribute : Kind → String
exchange_attribute rpc = "_request_exchange"
exchange_attribute queue = "_event_exchange"
exchange_attribute broadcast = "_broadcast_exchange"

abbrev pub put_at : (Kind → Dict ℕ) → Kind → Dict ℕ → Kind → Dict ℕ
put_at tables kind table k = if kind_eq kind k then table else tables k

module _ {B : Type 0} where
  -- `AMQPTransport()`
  unfoldable pub new : Options → B → Amqp B
  new options broker = record {
    options = options;
    attributes = [];
    queues = λ _. [];
    consumers = λ _. [];
    locked = false;
    broker = broker;
  }

  -- `await self._lock.acquire()`, and the `try` with `finally: self._lock.release()`.
  abbrev pub with_lock : {A : Type 0} → Exec (Amqp B) A → Exec (Amqp B) A
  with_lock method t =
      let (result, t') = method (record t { locked = true }) in
      (result, record t' { locked = false })

  abbrev pub on_broker : {A : Type 0} → Exec B A → Exec (Amqp B) A
  on_broker method t = let (result, b) = method t.broker in (result, record t { broker = b })

  -- `self.<name>`
  abbrev pub attribute : String → Exec (Amqp B) ℕ
  attribute name t = elim (Dict.lookup name t.attributes) [
    | none ↦ (raised (exception (attribute_error name)), t)
    | some value ↦ (returned value, t)
  ]

  abbrev pub set_attribute : String → ℕ → Exec (Amqp B) (Unit {0})
  set_attribute name value t =
      (returned tt, record t { attributes = Dict.insert name value t.attributes })

  -- `del self.<name>`
  abbrev pub delete : String → Exec (Amqp B) (Unit {0})
  delete name t = elim (Dict.lookup name t.attributes) [
    | none ↦ (raised (exception (attribute_error name)), t)
    | some _ ↦ (returned tt, record t { attributes = Dict.erase name t.attributes })
  ]

  abbrev pub hasattr : String → Amqp B → Bool
  hasattr name t = is_some (Dict.lookup name t.attributes)

  -- The attributes that `disconnect` deletes, and the tables that it clears.
  unfoldable pub tear_down : Exec (Amqp B) (Unit {0})
  tear_down = do
    delete "_connection"
    delete "_channel"
    delete "_request_exchange"
    delete "_response_exchange"
    delete "_event_exchange"
    delete "_broadcast_exchange"
    delete "_response_queue"
    delete "_response_consumer"
    λ t. (returned tt, record t { queues = λ _. []; consumers = λ _. [] })

module _ {C B : Type 0} (aio_pika : AioPika C B) where
  -- Where there is a connection, it is not closed.
  unfoldable pub is_connected : Amqp B → Bool
  is_connected t = elim (Dict.lookup "_connection" t.attributes) [
    | none ↦ false
    | some connection ↦ not (aio_pika.is_closed connection t.broker)
  ]

  -- `_get_exchange`, with the exchanges that were declared before.
  unfoldable pub get_exchange : Dict ℕ → String → Exec (Amqp B) (ℕ × Dict ℕ)
  get_exchange declared name t = elim (Dict.lookup name declared) [
    | some exchange ↦ (returned (exchange, declared), t)
    | none ↦
        (do
          channel ← attribute "_channel"
          exchange ← on_broker (aio_pika.declare_exchange channel name)
          λ q. (returned (exchange, Dict.insert name exchange declared), q))
          t
  ]

  -- From the channel to the consumer of the responses.
  unfoldable pub open_channel : ℕ → Exec (Amqp B) ℕ
  open_channel connection = do
    channel ← on_broker (aio_pika.channel connection)
    set_attribute "_channel" channel
    λ t. (returned channel, t)

  -- `self.<attribute> = await _get_exchange(name)`
  unfoldable pub set_exchange : String → Dict ℕ → String → Exec (Amqp B) (ℕ × Dict ℕ)
  set_exchange attribute_name declared name = do
    (exchange, d) ← get_exchange declared name
    set_attribute attribute_name exchange
    λ t. (returned (exchange, d), t)

  -- The reply queue, bound under its own name, and its consumer.
  unfoldable pub open_responses : ℕ → ℕ → Exec (Amqp B) ℕ
  open_responses channel exchange = do
    response_queue ← on_broker (aio_pika.declare_reply_queue channel)
    set_attribute "_response_queue" response_queue
    on_broker (λ b. aio_pika.bind response_queue exchange (aio_pika.name_of response_queue b) b)
    on_broker (aio_pika.set_qos channel)
    on_broker (aio_pika.consume_responses response_queue)

  unfoldable pub prepare : Options → ℕ → Exec (Amqp B) ℕ
  prepare options connection = do
    channel ← open_channel connection
    (_, d) ← set_exchange "_request_exchange" [] options.request_exchange_name
    (response_exchange, d') ← set_exchange "_response_exchange" d options.response_exchange_name
    (_, d'') ← set_exchange "_event_exchange" d' options.event_exchange_name
    _ ← set_exchange "_broadcast_exchange" d'' options.broadcast_exchange_name
    open_responses channel response_exchange

  unfoldable pub set_up : Options → ℕ → Exec (Amqp B) (Unit {0})
  set_up options connection = prepare options connection >>= set_attribute "_response_consumer"

  unfoldable pub connect : Exec (Amqp B) (Unit {0})
  connect = with_lock λ t.
      if hasattr "_connection" t
      then (returned tt, t)
      else (do
        connection ← on_broker (aio_pika.connect_robust t.options.url)
        set_attribute "_connection" connection
        set_up t.options connection)
          t

  unfoldable pub disconnect : Exec (Amqp B) (Unit {0})
  disconnect = with_lock λ t. elim (Dict.lookup "_connection" t.attributes) [
    | none ↦ (returned tt, t)
    | some connection ↦ (do on_broker (aio_pika.close connection); tear_down) t
  ]

  -- The part of a registration before the tables: the queue and the tag of its consumer.
  unfoldable pub consume_from : Kind → String → C → Exec (Amqp B) (ℕ × ℕ)
  consume_from kind name callback t =
      (do
        channel ← attribute "_channel"
        q ← on_broker (
            aio_pika.declare_queue channel (queue_name kind t.options.queue t.options.prefix name)
              (is_durable kind))
        exchange ← attribute (exchange_attribute kind)
        on_broker (aio_pika.bind q exchange (routing_key kind t.options.prefix name))
        consumer_tag ← on_broker (aio_pika.consume q callback)
        λ u. (returned (q, consumer_tag), u))
        t

  abbrev pub note : Kind → String → ℕ × ℕ → Exec (Amqp B) (Unit {0})
  note kind name (q, consumer_tag) t = (
    returned tt,
    record t {
      queues = put_at t.queues kind (Dict.insert name q (t.queues kind));
      consumers = put_at t.consumers kind (Dict.insert name consumer_tag (t.consumers kind));
    },
  )

  -- `_register_request_callback`, `_register_event_callback` and `_register_broadcast_callback`.
  unfoldable pub register : Kind → String → C → Exec (Amqp B) (Unit {0})
  register kind name callback = with_lock (consume_from kind name callback >>= note kind name)

  -- What was popped from the two tables.
  unfoldable pub cancel_consumer : Option ℕ → Option ℕ → Exec (Amqp B) (Unit {0})
  cancel_consumer (some q) (some consumer_tag) t =
      if is_connected t then on_broker (aio_pika.cancel q consumer_tag) t else (returned tt, t)
  cancel_consumer _ _ t = (returned tt, t)

  -- `_unregister_request_callback`, `_unregister_event_callback` and
  -- `_unregister_broadcast_callback`: both entries are popped before the consumer is cancelled.
  unfoldable pub unregister : Kind → String → Exec (Amqp B) (Unit {0})
  unregister kind name = with_lock λ t.
      cancel_consumer (Dict.lookup name (t.queues kind)) (Dict.lookup name (t.consumers kind))
        (record t {
          queues = put_at t.queues kind (Dict.erase name (t.queues kind));
          consumers = put_at t.consumers kind (Dict.erase name (t.consumers kind));
        })

  abbrev pub methods : Methods C (Amqp B)
  methods = record { register = register; unregister = unregister }
