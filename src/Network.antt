-- ===== src/Network.antt =====
-- src/network/mod.rs: the network of a node. A background task owns the swarm with its Episub; the rest
-- of the node talks to it through two channels, which are queues here. The swarm itself, which polls
-- the behaviour and calls it, is given by the wakes of the task, in any order.
pub mod Dispatch
pub mod Gossip
pub mod Starting
pub mod Waking
pub mod Relay
mod Tests
use irn.Base.{
  ℕ, String, Bool, true, Option, none, some, List, [], ◌∷◌, ◌++◌, map, Result, ok, err, Poll, ready,
  pending, if◌then◌else◌, ◌==◌, Eq-String,
}
use irn.Config.{Config, default_config}
use irn.Episub
use irn.Episub.{
  Episub, Published, PollParameters, ConnectedPoint, DialError, subscribe, publish, poll,
}
use irn.Episub.Calls.{Call, call}
use irn.Host.{Host}
use irn.Primitives.{Hasher, Multihash, Message, Subscription}
use irn.Rpc.{PeerId, Bytes, Multiaddr, Rpc, EpisubEvent, NetworkAction}
use Prim.Native.String.{◌++◌ as str_append}

pub data NetworkEvent : Type 0 where
  message_received : Message → NetworkEvent
  message_acknowledged : Multihash → NetworkEvent
  subscription_received : Subscription → NetworkEvent

pub data NetworkCommand : Type 0 where
  connect : Multiaddr → NetworkCommand
  gossip_message : Message → NetworkCommand
  gossip_ack : Multihash → NetworkCommand
  gossip_subscription : Subscription → NetworkCommand

-- The crate `bincode`, at the types that are sent.
pub record Bincode : Type 0 where
  pub serialize_message : Message → Option Bytes
  pub deserialize_message : Bytes → Result String Message
  pub serialize_hash : Multihash → Option Bytes
  pub deserialize_hash : Bytes → Result String Multihash

-- `format!("/{}/message", network_id)`, and the other two topics.
abbrev pub topic_name : String → String → String
topic_name network_id what = str_append "/" (str_append network_id what)

abbrev pub message_topic : String → String
message_topic network_id = topic_name network_id "/message"

abbrev pub subscribe_topic : String → String
subscribe_topic network_id = topic_name network_id "/subscribe"

abbrev pub ack_topic : String → String
ack_topic network_id = topic_name network_id "/ack"

-- 0.3 in units of 2 ^ -24.
abbrev pub shuffle_three_tenths : ℕ
shuffle_three_tenths = 5033165

-- The configuration of `Network::new`.
abbrev pub network_config : Config
network_config = record default_config {
  authorizer = λ topic peer. true;
  active_view_factor = 4;
  network_size = 20;
  max_transmit_size = 65536;
  history_window = 30_000;
  lazy_push_window = 5000;
  shuffle_probability = shuffle_three_tenths;
}

-- The background task, with the addresses that it has dialled.
pub record Task : Type 0 where
  pub network_id : String
  pub swarm : Episub
  pub dialled : List Multiaddr

-- The queues of the channels, and the task unless it has panicked.
pub record Network : Type 0 where
  pub netin : List NetworkEvent
  pub netout : List NetworkCommand
  pub task : Option Task

-- The swarm of a new node, subscribed to the three topics of the network.
unfoldable pub start : String → ℕ → Episub
start network_id now =
    let messages = (subscribe (Episub.new network_config) (message_topic network_id) now).0 in
    let subscriptions = (subscribe messages (subscribe_topic network_id) now).0 in
    (subscribe subscriptions (ack_topic network_id) now).0

-- `Network::new`: a connect command for each bootstrap node waits for the task.
unfoldable pub new : String → List Multiaddr → ℕ → Network
new network_id bootstrap now = record {
  netin = [];
  netout = map NetworkCommand.connect bootstrap;
  task = some (record { network_id = network_id; swarm = start network_id now; dialled = [] });
}

abbrev pub event_or : {A : Type 0} → (A → NetworkEvent) → Result String A → Option NetworkEvent
event_or f (ok a) = some (f a)
event_or f (err e) = none

-- What the task makes of an event of the behaviour. What cannot be read is logged.
unfoldable pub dispatch : Bincode → Hasher → String → EpisubEvent → Option NetworkEvent
dispatch c h network_id (EpisubEvent.message_received topic id payload) =
    if topic == message_topic network_id
    then event_or NetworkEvent.message_received (c.deserialize_message payload)
    else if topic == subscribe_topic network_id
    then event_or NetworkEvent.subscription_received (c.deserialize_hash payload)
    else if topic == ack_topic network_id
    then event_or NetworkEvent.message_acknowledged (h.from_bytes payload)
    else none
dispatch c h network_id (EpisubEvent.subscribed topic) = none
dispatch c h network_id (EpisubEvent.peer_added peer) = none
dispatch c h network_id (EpisubEvent.peer_removed peer) = none
dispatch c h network_id (EpisubEvent.unsubscribed topic) = none

-- `.unwrap()` of a publication.
abbrev pub published : Task → Episub × Published → Option Task
published t (e, Published.ok id) = some (record t { swarm = e })
published t (e, Published.error why) = none

-- A payload published on a topic; without a payload the serialisation has panicked.
abbrev pub gossip : Host → Task → String → Option Bytes → ℕ → Option Task
gossip h t topic none now = none
gossip h t topic (some payload) now = published t (publish h t.swarm topic payload now)

-- One command of the node. Without a result the task panics.
unfoldable pub execute : Host → Bincode → Task → NetworkCommand → ℕ → Option Task
execute h c t (NetworkCommand.connect addr) now =
    some (record t { dialled = t.dialled ++ addr ∷ [] })
execute h c t (NetworkCommand.gossip_ack hash) now =
    gossip h t (ack_topic t.network_id) (c.serialize_hash hash) now
execute h c t (NetworkCommand.gossip_message message) now =
    gossip h t (message_topic t.network_id) (c.serialize_message message) now
execute h c t (NetworkCommand.gossip_subscription sub) now =
    gossip h t (subscribe_topic t.network_id) (c.serialize_hash sub) now

-- The calls that the swarm makes of the behaviour, apart from polling it.
pub data SwarmCall : Type 0 where
  connected : (peer : PeerId) (connection : ℕ) (endpoint : ConnectedPoint) → SwarmCall
  listens expires : (addr : Multiaddr) → SwarmCall
  fails : (peer : Option PeerId) (why : DialError) → SwarmCall
  closed : (peer : PeerId) → SwarmCall
  receives : (peer : PeerId) (connection : ℕ) (event : Rpc) (now : ℕ) → SwarmCall

abbrev pub as_call : SwarmCall → Call
as_call (SwarmCall.connected peer connection endpoint) = Call.connected peer connection endpoint
as_call (SwarmCall.listens addr) = Call.listens addr
as_call (SwarmCall.expires addr) = Call.expires addr
as_call (SwarmCall.fails peer why) = Call.fails peer why
as_call (SwarmCall.closed peer) = Call.closed peer
as_call (SwarmCall.receives peer connection event now) = Call.receives peer connection event now

-- What wakes the task: the swarm calls the behaviour, the swarm polls it, or a command waits.
pub data Wake : Type 0 where
  called : SwarmCall → Wake
  polled : PollParameters → (now : ℕ) → Wake
  commanded : (now : ℕ) → Wake

-- The event of a poll, if it is one for the application.
abbrev pub generated : Option NetworkAction → Option EpisubEvent
generated (some (NetworkAction.generate_event event)) = some event
generated a = none

abbrev pub append_event : List NetworkEvent → Option NetworkEvent → List NetworkEvent
append_event events none = events
append_event events (some event) = events ++ event ∷ []

-- The event of the behaviour, if any, goes to the node, which holds the other end of the channel as
-- long as it runs.
abbrev pub hand_over :
    Bincode → Hasher → String → List NetworkEvent → Option NetworkAction → List NetworkEvent
hand_over c h network_id events a = elim (generated a) [
  | none ↦ events
  | some event ↦ append_event events (dispatch c h network_id event)
]

abbrev pub with_task : Network → Option Task → Network
with_task n task = record n { task = task }

module _ (h : Host) (c : Bincode) (s : Hasher) where
  abbrev pub wake_command : Network → Task → List NetworkCommand → ℕ → Network
  wake_command n t [] now = n
  wake_command n t (command ∷ rest) now =
      with_task (record n { netout = rest }) (execute h c t command now)

  -- One round of the loop of the task.
  unfoldable pub wake_task : Network → Task → Wake → Network
  wake_task n t (Wake.called k) =
      with_task n
        (elim (call h t.swarm (as_call k)) [ none ↦ none | some e ↦ some (record t { swarm = e }) ])
  wake_task n t (Wake.polled params now) = elim (poll h t.swarm params now) [
    | none ↦ with_task n none
    | some (a, e) ↦
        with_task (record n { netin = hand_over c s t.network_id n.netin a })
          (some (record t { swarm = e }))
  ]
  wake_task n t (Wake.commanded now) = wake_command n t n.netout now

  unfoldable pub wake : Network → Wake → Network
  wake n w = elim n.task [ none ↦ n | some t ↦ wake_task n t w ]

-- `gossip_message`, `gossip_subscription` and `gossip_ack` send a command; the channel refuses it, and
-- gives it back, once the task is gone.
unfoldable pub send : Network → NetworkCommand → Result NetworkCommand Network
send n command = elim n.task [
  | none ↦ err command
  | some t ↦ ok (record n { netout = n.netout ++ command ∷ [] })
]

abbrev pub receive : Network → List NetworkEvent → Network × Poll (Option NetworkEvent)
receive n (event ∷ rest) = (record n { netin = rest }, ready (some event))
receive n [] = elim n.task [ none ↦ (n, ready none) | some t ↦ (n, pending) ]

-- The next event of the task; none once the task is gone and its events are received.
unfoldable pub poll_events : Network → Network × Poll (Option NetworkEvent)
poll_events n = receive n n.netin
