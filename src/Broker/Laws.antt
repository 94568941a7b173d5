-- ===== src/Broker/Laws.antt =====
-- What becomes of the messages, and of the connection.
use go_fire.Base.{
  not, any, ◌≡◌, refl, ap, sym, ◌∙◌, ◌⊎◌, inl, inr, List, [], ◌∷◌, ◌++◌, map, Bool, true, false,
  String, Error, ok, err, append_assoc, append-nil, Option-cases,
}
use go_fire.Broker.{
  Amqp, Call, dial, channel, close_channel, close_conn, RabbitMq, Faults, Made, new_rabbit_mq,
  publish, publish_all, Event, arrives, cancelled, closed, forward,
}

-- Whether the connection and the channel are open after the calls.
abbrev pub open_after : List Call → Bool × Bool → Bool × Bool
open_after [] o = o
open_after (dial ∷ calls) (conn, ch) = open_after calls (true, ch)
open_after (channel ∷ calls) (conn, ch) = open_after calls (conn, true)
open_after (close_channel ∷ calls) (conn, ch) = open_after calls (conn, false)
open_after (close_conn ∷ calls) (conn, ch) = open_after calls (false, false)

module _ {S : Type 0} (amqp : Amqp S) where
  -- NewRabbitMQ has failed and left nothing open, or the connection and the channel are open, and the
  -- queue is bound to the exchange with the key.
  abbrev pub IsMade : String → String → String → Made amqp → Type 0
  IsMade exchange queue routing_key (s, calls, result) =
      ((e : Error) × (result ≡ err e) × (open_after calls (false, false) ≡ (false, false)))
      ⊎ ((result
            ≡ ok (record { queue_name = queue; exchange = exchange; routing_key = routing_key }))
          × (open_after calls (false, false) ≡ (true, true))
          × amqp.IsBound queue routing_key exchange s)

  pub new_rabbit_mq-IsMade :
      (f : Faults) (exchange queue routing_key : String) (s : S)
      → IsMade exchange queue routing_key (new_rabbit_mq amqp f exchange queue routing_key s)
  unfolding new_rabbit_mq
  new_rabbit_mq-IsMade f exchange queue routing_key s = elim (Option-cases f.dial) [
    | inr (e, fails) ↦ rw (new_rabbit_mq, fails) (inl (e, refl, refl))
    | inl a ↦ elim (Option-cases f.channel) [
      | inr (e, fails) ↦ rw (new_rabbit_mq, a, fails) (inl (e, refl, refl))
      | inl b ↦ elim (Option-cases f.exchange) [
        | inr (e, fails) ↦ rw (new_rabbit_mq, a, b, fails) (inl (e, refl, refl))
        | inl c ↦ elim (Option-cases f.queue) [
          | inr (e, fails) ↦ rw (new_rabbit_mq, a, b, c, fails) (inl (e, refl, refl))
          | inl d ↦ elim (Option-cases f.bind) [
            | inr (e, fails) ↦ rw (new_rabbit_mq, a, b, c, d, fails) (inl (e, refl, refl))
            | inl g ↦
                rw (new_rabbit_mq, a, b, c, d, g)
                  (inr (
                    refl,
                    refl,
                    amqp.queue_bind-IsBound queue routing_key exchange _
                        (amqp.queue_declare-HasExchange queue exchange _
                          (amqp.exchange_declare-HasExchange exchange s))
                        (amqp.queue_declare-HasQueue queue _),
                  ))
          ]
        ]
      ]
    ]
  ]

  publish_all-messages :
      (r : RabbitMq) (q : String) (sent : List (String × String)) (s : S)
      → amqp.IsBound q r.routing_key r.exchange s
      → amqp.messages q (publish_all amqp r sent s) ≡ amqp.messages q s ++ map (λ x. x.1) sent
  unfolding publish
  publish_all-messages r q [] s bound = rw append-nil refl
  publish_all-messages r q ((name, m) ∷ sent) s bound =
      let s' = amqp.publish_to r.exchange r.routing_key m s in
      publish_all-messages r q sent s'
        (amqp.publish_to-IsBound q r.routing_key r.exchange r.routing_key r.exchange m s bound)
      ∙ rw (amqp.publish_to-messages q r.routing_key r.exchange m s bound, append_assoc) refl

-- The messages that arrive, also those behind the end of the loop.
abbrev pub arrivals : List Event → List String
arrivals [] = []
arrivals (arrives m passes ∷ events) = m ∷ arrivals events
arrivals (_ ∷ events) = arrivals events

-- The loop ends at this event.
abbrev pub stops : Event → Bool
stops (arrives m passes) = not passes
stops _ = true

forward-arrivals :
    (events : List Event)
    → (lost : List String) × (arrivals events ≡ forward events ++ lost)
      × ((lost ≡ []) ⊎ (any stops events ≡ true))
unfolding forward
forward-arrivals [] = ([], refl, inl refl)
forward-arrivals (arrives m true ∷ events) =
    let (lost, same, how) = forward-arrivals events in (lost, ap (λ l. m ∷ l) same, how)
forward-arrivals (arrives m false ∷ events) = (m ∷ arrivals events, refl, inr refl)
forward-arrivals (cancelled ∷ events) = (arrivals events, refl, inr refl)
forward-arrivals (closed ∷ events) = (arrivals events, refl, inr refl)

-- Through the broker: where NewRabbitMQ has succeeded, and under the laws of a direct exchange, the
-- messages that Publish is given, under whatever names of queues, come behind those that waited, and what
-- Consume passes on is a beginning of them in their order, each once; it is all of them unless the context
-- is cancelled or the deliveries end.
pub publish-consume :
    {S : Type 0} (amqp : Amqp S) (f : Faults) (exchange queue routing_key : String) (s : S)
    (r : RabbitMq) (sent : List (String × String)) (events : List Event)
    → (new_rabbit_mq amqp f exchange queue routing_key s).2 ≡ ok r
    → arrivals events
      ≡ amqp.messages queue
          (publish_all amqp r sent (new_rabbit_mq amqp f exchange queue routing_key s).0)
    → (lost : List String) × (amqp.messages queue
            (new_rabbit_mq amqp f exchange queue routing_key s).0
          ++ map (λ x. x.1) sent
        ≡ forward events ++ lost)
      × ((lost ≡ []) ⊎ (any stops events ≡ true))
publish-consume amqp f exchange queue routing_key s r sent events works come =
    let made = new_rabbit_mq amqp f exchange queue routing_key s in
    let (lost, same, how) = forward-arrivals events in
    elim (new_rabbit_mq-IsMade amqp f exchange queue routing_key s) [
      | inl (e, fails, left) ↦ absurd cc
      | inr (made', opened, bound) ↦
          let r' : r
              ≡ record { queue_name = queue; exchange = exchange; routing_key = routing_key } =
            cc in
          let all = publish_all-messages amqp r queue sent made.0 (rw r' bound) in
          (lost, sym all ∙ sym come ∙ same, how)
    ]
