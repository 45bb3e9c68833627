-- ===== src/Node/Waiting.antt =====
-- The requests that wait in the queues of a node, from the oldest to the newest.
use irn.Base.{
  ℕ, ◌≡◌, Option, none, some, List, [], ◌∷◌, ◌++◌, arith, append_assoc, append-nil, filter_map,
  filter_map-append,
}
use irn.Bus.{MessageBusEvent}
use irn.JsonRpc.Service.{RpcEvent}
use irn.Network.{NetworkCommand}
use irn.Primitives.{Message, Subscription}

-- The message or the subscription that a queued item is about.
abbrev pub message_event : RpcEvent → Option Message
message_event (RpcEvent.message m) = some m
message_event (RpcEvent._subscription s w) = none

abbrev pub message_command : NetworkCommand → Option Message
message_command (NetworkCommand.gossip_message m) = some m
message_command command = none

abbrev pub subscription_event : RpcEvent → Option Subscription
subscription_event (RpcEvent.message m) = none
subscription_event (RpcEvent._subscription s w) = some s

abbrev pub subscription_created : MessageBusEvent → Option Subscription
subscription_created (MessageBusEvent.subscription_created topic) = some topic
subscription_created event = none

abbrev pub subscription_command : NetworkCommand → Option Subscription
subscription_command (NetworkCommand.gossip_subscription s) = some s
subscription_command command = none

-- What waits in the three queues, the oldest first.
abbrev pub messages : List NetworkCommand → List RpcEvent → List Message
messages out events = filter_map message_command out ++ filter_map message_event events

abbrev pub subscriptions :
    List NetworkCommand → List MessageBusEvent → List RpcEvent → List Subscription
subscriptions out created events =
    filter_map subscription_command out
    ++ (filter_map subscription_created created ++ filter_map subscription_event events)

pub messages-moved :
    (out : List NetworkCommand) (m : Message) (rest : List RpcEvent)
    → messages (out ++ NetworkCommand.gossip_message m ∷ []) rest
      ≡ messages out (RpcEvent.message m ∷ rest)
messages-moved out m rest = ground (
  arith,
  filter_map-append message_command out (NetworkCommand.gossip_message m ∷ []),
  append_assoc (filter_map message_command out) (m ∷ []) (filter_map message_event rest),
)

pub messages-other :
    (out : List NetworkCommand) (command : NetworkCommand) (events : List RpcEvent)
    → message_command command ≡ none
    → messages (out ++ command ∷ []) events ≡ messages out events
messages-other out command events other = ground (
  arith,
  filter_map-append message_command out (command ∷ []),
  append-nil (filter_map message_command out),
)

pub subscriptions-other :
    (out : List NetworkCommand) (command : NetworkCommand) (created : List MessageBusEvent)
    (events : List RpcEvent)
    → subscription_command command ≡ none
    → subscriptions (out ++ command ∷ []) created events ≡ subscriptions out created events
subscriptions-other out command created events other = ground (
  arith,
  filter_map-append subscription_command out (command ∷ []),
  append-nil (filter_map subscription_command out),
)

pub subscriptions-announced :
    (out : List NetworkCommand) (s : Subscription) (created : List MessageBusEvent)
    (events : List RpcEvent)
    → subscriptions (out ++ NetworkCommand.gossip_subscription s ∷ []) created events
      ≡ subscriptions out (MessageBusEvent.subscription_created s ∷ created) events
subscriptions-announced out s created events = ground (
  arith,
  filter_map-append subscription_command out (NetworkCommand.gossip_subscription s ∷ []),
  append_assoc (filter_map subscription_command out) (s ∷ [])
      (filter_map subscription_created created ++ filter_map subscription_event events),
)

pub subscriptions-created :
    (out : List NetworkCommand) (s : Subscription) (w : ℕ) (created : List MessageBusEvent)
    (rest : List RpcEvent)
    → subscriptions out (created ++ MessageBusEvent.subscription_created s ∷ []) rest
      ≡ subscriptions out created (RpcEvent._subscription s w ∷ rest)
subscriptions-created out s w created rest = ground (
  arith,
  filter_map-append subscription_created created (MessageBusEvent.subscription_created s ∷ []),
  append_assoc (filter_map subscription_created created) (s ∷ [])
      (filter_map subscription_event rest),
)

pub messages-arrived :
    (out : List NetworkCommand) (events added : List RpcEvent)
    → messages out (events ++ added) ≡ messages out events ++ filter_map message_event added
messages-arrived out events added = ground (
  arith,
  filter_map-append message_event events added,
  append_assoc (filter_map message_command out) (filter_map message_event events)
      (filter_map message_event added),
)

pub subscriptions-arrived :
    (out : List NetworkCommand) (created : List MessageBusEvent) (events added : List RpcEvent)
    → subscriptions out created (events ++ added)
      ≡ subscriptions out created events ++ filter_map subscription_event added
subscriptions-arrived out created events added = ground (
  arith,
  filter_map-append subscription_event events added,
  append_assoc (filter_map subscription_created created) (filter_map subscription_event events)
      (filter_map subscription_event added),
  append_assoc (filter_map subscription_command out)
      (filter_map subscription_created created ++ filter_map subscription_event events)
      (filter_map subscription_event added),
)
