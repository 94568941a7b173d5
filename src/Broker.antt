-- ===== src/Broker.antt =====
-- The message broker (internal/message_broaker/rabbitmq.go). The AMQP library and its server are a
-- parameter: what the calls do to the server's state, with what the documentation of direct exchanges
-- says of them as laws. A call that fails leaves the state as it was.
pub mod Laws
use go_fire.Base.{
  ◌≡◌, List, [], ◌∷◌, ◌++◌, Bool, true, false, Option, none, some, String, Error, Result, ok, err,
}

pub record Amqp (S : Type 0) : Type 1 where
  pub exchange_declare : String → S → S
  pub queue_declare : String → S → S
  pub queue_bind : String → String → String → S → S
  pub publish_to : String → String → String → S → S
  -- The messages that wait in a queue.
  pub messages : String → S → List String
  pub HasExchange : String → S → Type 0
  pub HasQueue : String → S → Type 0
  -- The queue is bound to the exchange with the key.
  pub IsBound : String → String → String → S → Type 0
  pub exchange_declare-HasExchange : (x : String) (s : S) → HasExchange x (exchange_declare x s)
  pub queue_declare-HasQueue : (q : String) (s : S) → HasQueue q (queue_declare q s)
  pub queue_declare-HasExchange :
      (q x : String) (s : S) → HasExchange x s → HasExchange x (queue_declare q s)
  pub queue_bind-IsBound :
      (q k x : String) (s : S) → HasExchange x s → HasQueue q s → IsBound q k x (queue_bind q k x s)
  pub publish_to-IsBound :
      (q k x k' x' m : String) (s : S) → IsBound q k x s → IsBound q k x (publish_to x' k' m s)
  pub publish_to-messages :
      (q k x m : String) (s : S)
      → IsBound q k x s
      → messages q (publish_to x k m s) ≡ messages q s ++ m ∷ []

-- What the library opens and closes.
pub data Call : Type 0 where
  dial channel close_channel close_conn : Call

pub record RabbitMq : Type 0 where
  pub queue_name : String
  pub exchange : String
  pub routing_key : String

-- The failures of the calls of NewRabbitMQ.
pub record Faults : Type 0 where
  pub dial : Option Error
  pub channel : Option Error
  pub exchange : Option Error
  pub queue : Option Error
  pub bind : Option Error

module _ {S : Type 0} (amqp : Amqp S) where
  -- The server's state, the calls that open and close, and what is returned.
  abbrev pub Made : Type 0
  Made = S × List Call × Result RabbitMq

  -- `ch.Close(); conn.Close(); return nil, err`.
  abbrev pub give_up : Error → S → Made
  give_up e s = (s, dial ∷ channel ∷ close_channel ∷ close_conn ∷ [], err e)

  unfoldable pub new_rabbit_mq : Faults → String → String → String → S → Made
  new_rabbit_mq f exchange queue routing_key s = elim f.dial [
    | some e ↦ (s, [], err e)
    | none ↦ elim f.channel [
      | some e ↦ (s, dial ∷ close_conn ∷ [], err e)
      | none ↦ elim f.exchange [
        | some e ↦ give_up e s
        | none ↦
            let s1 = amqp.exchange_declare exchange s in
            elim f.queue [
              | some e ↦ give_up e s1
              | none ↦
                  let s2 = amqp.queue_declare queue s1 in
                  elim f.bind [
                    | some e ↦ give_up e s2
                    | none ↦ (
                      amqp.queue_bind queue routing_key exchange s2,
                      dial ∷ channel ∷ [],
                      ok (record {
                        queue_name = queue;
                        exchange = exchange;
                        routing_key = routing_key;
                      }),
                    )
                  ]
            ]
      ]
    ]
  ]

  -- The name of the queue that Publish is given is not used.
  unfoldable pub publish : Option Error → RabbitMq → String → String → S → S × Result (Unit {0})
  publish (some e) r queue message s = (s, err e)
  publish none r queue message s = (amqp.publish_to r.exchange r.routing_key message s, ok tt)

  abbrev pub publish_all : RabbitMq → List (String × String) → S → S
  unfolding publish
  publish_all r [] s = s
  publish_all r ((queue, message) ∷ rest) s = publish_all r rest (publish none r queue message s).0

-- What the goroutine of Consume meets: a message arrives, and there is room for it in the channel before
-- the context is cancelled, or not; the context is cancelled; or the deliveries end.
pub data Event : Type 0 where
  arrives : String → Bool → Event
  cancelled closed : Event

-- The messages that it passes on.
unfoldable pub forward : List Event → List String
forward [] = []
forward (arrives m true ∷ events) = m ∷ forward events
forward (arrives m false ∷ events) = []
forward (cancelled ∷ events) = []
forward (closed ∷ events) = []

-- Close, for the failure of closing the channel: the connection is closed in any case.
abbrev pub close : Option Error → Option Error → List Call × Result (Unit {0})
close (some e) fault = (close_channel ∷ close_conn ∷ [], err e)
close none (some e) = (close_channel ∷ close_conn ∷ [], err e)
close none none = (close_channel ∷ close_conn ∷ [], ok tt)
