-- ===== src/Tests/ConnectionRuns.antt =====
-- Runs of the AMQP transport's connection: over a broker that does what it is asked, and over one
-- that opens no channel.
use atasks.Prelude.{ℕ, ◌+◌, ◌≡◌, refl, true, false, none, [], ◌∷◌}
use atasks.Prelude.Dict
use atasks.Hop.{rpc}
use atasks.Errors.{Exec, Outcome, returned, raised, exception, connection_lost}
use atasks.Transport.Amqp.Connection.{
  AioPika, Options, Amqp, register, unregister, new, connect, disconnect, set_up, prepare,
  open_channel, set_exchange, get_exchange, open_responses,
}
use atasks.Transport.Amqp.Connection.Driven.{is_returned, is_set_up}
use atasks.Transport.Amqp.Connection.Unsubscribing.{unregister-register}
use atasks.Transport.Amqp.Connection.Failure.{connect-raised}
use atasks.Transport.Amqp.Connection.Lifetime.{disconnect-connect}

-- The broker numbers what it makes.
abbrev make : Exec ℕ ℕ
make b = (returned b, b + 1)

abbrev obey : Exec ℕ (Unit {0})
obey b = (returned tt, b)

abbrev willing : AioPika ℕ ℕ
willing = record {
  connect_robust = λ _. make;
  channel = λ _. make;
  declare_exchange = λ _ _. make;
  declare_queue = λ _ _ _. make;
  declare_reply_queue = λ _. make;
  bind = λ _ _ _. obey;
  set_qos = λ _. obey;
  consume = λ _ _. make;
  consume_responses = λ _. make;
  cancel = λ _ _. obey;
  close = λ _. obey;
  is_closed = λ _ _. false;
  name_of = λ _ _. "amq.gen-1";
}

abbrev no_channel : AioPika ℕ ℕ
no_channel = record willing { channel = λ _ b. (raised (exception (connection_lost "channel")), b) }

abbrev options : Options
options = record {
  url = "amqp://localhost/";
  request_exchange_name = "atask";
  response_exchange_name = "atask";
  event_exchange_name = "atask";
  broadcast_exchange_name = "atask";
  prefix = "atask";
  queue = "atask";
}

abbrev fresh : Amqp ℕ
fresh = new options 0

-- The transport as `connect` leaves it, as far as a registration reads it.
abbrev linked : Amqp ℕ
linked = record fresh {
  attributes = ("_connection", 1) ∷ ("_channel", 2) ∷ ("_request_exchange", 3) ∷ [];
  broker = 4;
}

-- A broker whose number grows when a consumer is cancelled.
abbrev counting : AioPika ℕ ℕ
counting = record willing { cancel = λ q tag b. (returned tt, b + 10) }

unregister-register_example :
    let t' = (register counting rpc "job" 7 linked).1 in
    let r = unregister counting rpc "job" t' in
    ((register counting rpc "job" 7 linked).0 ≡ returned tt)
    × (◌≡◌ {A = Outcome (Unit {0}) × ℕ} (r.0, r.1.broker) (returned tt, 16))
    × (Dict.lookup "job" (r.1.queues rpc) ≡ none)
    × (Dict.lookup "job" (r.1.consumers rpc) ≡ none)
    × (r.1.locked ≡ false)
unfolding new Dict.lookup
unregister-register_example =
    unregister-register counting rpc "job" 7 linked 1 2 3 4 5 5 5 6 refl refl refl refl refl refl

connect-raised_example :
    ((connect no_channel fresh).0 ≡ raised (exception (connection_lost "channel")))
    × (connect no_channel (connect no_channel fresh).1
        ≡ (returned tt, (connect no_channel fresh).1))
    × (is_returned (disconnect no_channel (connect no_channel fresh).1).0 ≡ false)
unfolding new set_up prepare open_channel Dict.lookup
connect-raised_example =
    connect-raised no_channel fresh 0 1 (exception (connection_lost "channel")) refl refl refl refl

disconnect-connect_example :
    (is_set_up (connect willing fresh).1 ≡ true)
    × ((disconnect willing (connect willing fresh).1).0 ≡ returned tt)
    × (Dict.lookup "_connection" (disconnect willing (connect willing fresh).1).1.attributes ≡ none)
    × ((disconnect willing (connect willing fresh).1).1.queues rpc ≡ [])
    × ((disconnect willing (connect willing fresh).1).1.consumers rpc ≡ [])
    × ((disconnect willing (connect willing fresh).1).1.locked ≡ false)
unfolding new connect set_up prepare open_channel set_exchange get_exchange open_responses
    Dict.lookup Dict.insert
disconnect-connect_example = disconnect-connect willing fresh rpc refl refl (λ _ _. refl)
