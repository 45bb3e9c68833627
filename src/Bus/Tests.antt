-- ===== src/Bus/Tests.antt =====
-- The bus on a small history.
use irn.Base.{◌≡◌, refl, none, some, List, [], ◌∷◌, ok, Eq-ℕ}
use irn.Base.Keyed.{find}
use irn.Bus.{
  MessageBus, MessageBusEvent, Sockets, served_topic, new, create_subscription, _drop_subscription,
  drop_message, _send_message, poll_next,
}
use irn.Bus.Register
use irn.Bus.Register.{Call, call, run}
use irn.Primitives
use irn.Samples.Crates.{hasher}

program : Unit {0}
unfolding new create_subscription _drop_subscription drop_message _send_message poll_next call run
    Primitives.new Primitives.multihash
program = tt

abbrev sockets : Sockets
sockets = record { to_string_pretty = λ m. ok "message"; send = λ w t. none }

abbrev calls : List Call
calls =
    Call.creates 1 10
    ∷ Call.creates 2 20
    ∷ Call.sends (Primitives.new 1 [])
    ∷ Call.creates 1 11
    ∷ Call.drops 2
    ∷ Call.polls
    ∷ []

-- The bus after the calls.
abbrev result : MessageBus
result = record {
  topics = record { topic = 1; socket = 11 } ∷ [];
  events_out =
      MessageBusEvent.subscription_created 2
      ∷ MessageBusEvent._message_delivered 1
      ∷ MessageBusEvent.subscription_created 1
      ∷ MessageBusEvent._subscription_dropped 2
      ∷ [];
}

run-register_example : Register.socket_of (find served_topic 1 result.topics) ≡ some 11
unfolding program
run-register_example = Register.run-register hasher sockets calls new 1 {u = result} refl
