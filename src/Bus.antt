-- ===== src/Bus.antt =====
-- src/bus.rs: the bus between the subscribers of this node and the network. The map of sockets is a
-- list without duplicate topics. What a socket does with a text is a parameter.
pub mod Register
mod Tests
use irn.Base.{
  ℕ, String, Option, none, some, List, [], ◌∷◌, ◌++◌, Result, ok, err, Poll, ready, pending, Eq-ℕ,
}
use irn.Base.Keyed.{find, put, remove}
use irn.JsonRpc.Service.{WebSocket}
use irn.Primitives.{Hasher, Multihash, Message, multihash}

pub data MessageBusEvent : Type 0 where
  _message_delivered subscription_created _subscription_dropped : Multihash → MessageBusEvent

pub data SendError : Type 0 where
  serialization web_socket : String → SendError

-- The socket of a topic.
pub record Served : Type 0 where
  pub topic : Multihash
  pub socket : WebSocket

abbrev pub served_topic : Served → Multihash
served_topic s = s.topic

pub record MessageBus : Type 0 where
  pub topics : List Served
  pub events_out : List MessageBusEvent

-- `serde_json` and the websockets: a message as text, and what sending a text to a socket returns.
pub record Sockets : Type 0 where
  pub to_string_pretty : Message → Result String String
  pub send : WebSocket → String → Option String

unfoldable pub new : MessageBus
new = record { topics = []; events_out = [] }

abbrev pub emit : MessageBus → MessageBusEvent → MessageBus
emit b event = record b { events_out = b.events_out ++ event ∷ [] }

unfoldable pub create_subscription : MessageBus → Multihash → WebSocket → MessageBus
create_subscription b topic socket =
    emit
      (record b { topics = put served_topic (record { topic = topic; socket = socket }) b.topics })
      (MessageBusEvent.subscription_created topic)

unfoldable pub _drop_subscription : MessageBus → Multihash → MessageBus
_drop_subscription b topic =
    emit (record b { topics = remove served_topic topic b.topics })
      (MessageBusEvent._subscription_dropped topic)

-- Nothing yet: the source has a todo here.
unfoldable pub drop_message : MessageBus → Multihash → MessageBus
drop_message b hash = b

-- The result of sending; without one, the hash of the message panics.
unfoldable pub _send_message :
    Hasher → Sockets → MessageBus → Message → Option (MessageBus × Option SendError)
_send_message h w b message = elim (find served_topic message.topic b.topics) [
  | none ↦ some (b, none)
  | some s ↦ elim (w.to_string_pretty message) [
    | err e ↦ some (b, some (SendError.serialization e))
    | ok text ↦ elim (w.send s.socket text) [
      | some e ↦ some (b, some (SendError.web_socket e))
      | none ↦ elim (multihash h message) [
        | none ↦ none
        | some r ↦ some (emit b (MessageBusEvent._message_delivered r.0), none)
      ]
    ]
  ]
]

unfoldable pub poll_next : MessageBus → MessageBus × Poll (Option MessageBusEvent)
poll_next b = elim b.events_out [
  | [] ↦ (b, pending)
  | event ∷ rest ↦ (record b { events_out = rest }, ready (some event))
]
