-- ===== src/Tests/Broker.antt =====
-- A run of the message broker over a server with direct exchanges, and the theorem about it.
use go_fire.Base.{
  ◌≡◌, refl, ◌⊎◌, List, [], ◌∷◌, ◌++◌, map, any, Bool, true, false, ◌&&◌, ◌||◌, none, String,
  str_eq, eq_iff, if◌then◌else◌,
}
use go_fire.Broker.{
  Amqp, RabbitMq, Faults, new_rabbit_mq, publish_all, Event, arrives, cancelled, closed, forward,
}
use go_fire.Broker.Laws.{publish-consume, stops}

-- The bindings, and the messages that wait in each queue.
record Server : Type 0 where
  bound : String → String → String → Bool
  waiting : String → List String

abbrev start : Server
start = record { bound = λ q k x. false; waiting = λ q. [] }

abbrev bind : String → String → String → Server → Server
bind q k x s = record s {
  bound = λ q' k' x'. str_eq q q' && (str_eq k k' && str_eq x x') || s.bound q' k' x';
}

abbrev put : String → String → String → Server → Server
put x k m s = record s {
  waiting = λ q. if s.bound q k x then s.waiting q ++ m ∷ [] else s.waiting q;
}

str_eq_refl : (a : String) → str_eq a a ≡ true
str_eq_refl a = (eq_iff a a).1 refl

bind-bound : (q k x : String) (s : Server) → (bind q k x s).bound q k x ≡ true
bind-bound q k x s = rw (str_eq_refl q, str_eq_refl k, str_eq_refl x) refl

put-waiting :
    (q k x m : String) (s : Server)
    → s.bound q k x ≡ true
    → (put x k m s).waiting q ≡ s.waiting q ++ m ∷ []
put-waiting q k x m s h = rw h refl

abbrev direct : Amqp Server
direct = record {
  exchange_declare = λ x s. s;
  queue_declare = λ q s. s;
  queue_bind = bind;
  publish_to = put;
  messages = λ q s. s.waiting q;
  HasExchange = λ x s. Unit;
  HasQueue = λ q s. Unit;
  IsBound = λ q k x s. s.bound q k x ≡ true;
  exchange_declare-HasExchange = λ x s. tt;
  queue_declare-HasQueue = λ q s. tt;
  queue_declare-HasExchange = λ q x s h. h;
  queue_bind-IsBound = λ q k x s h h'. bind-bound q k x s;
  publish_to-IsBound = λ q k x k' x' m s h. h;
  publish_to-messages = put-waiting;
}

abbrev works : Faults
works = record { dial = none; channel = none; exchange = none; queue = none; bind = none }

abbrev made : RabbitMq
made = record { queue_name = "jobs"; exchange = "gofire"; routing_key = "" }

-- The second message has arrived when the context is cancelled.
abbrev events : List Event
events = arrives "a" true ∷ arrives "b" false ∷ cancelled ∷ []

publish-consume_example :
    (lost : List String) × (direct.messages "jobs"
          (new_rabbit_mq direct works "gofire" "jobs" "" start).0
        ++ map (λ (x : String × String). x.1) (("jobs", "a") ∷ ("other", "b") ∷ [])
      ≡ forward events ++ lost)
    × ((lost ≡ []) ⊎ (any stops events ≡ true))
unfolding new_rabbit_mq go_fire.Broker.publish
publish-consume_example =
    publish-consume direct works "gofire" "jobs" "" start made (("jobs", "a") ∷ ("other", "b") ∷ [])
      events refl refl
