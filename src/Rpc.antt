-- ===== src/Rpc.antt =====
-- The wire messages of src/network/episub/rpc.proto, the peers that they name, and the events and
-- actions that the behaviour hands to the swarm.
use irn.Base.{ℕ, String, Bool, List, Option}

-- A libp2p peer identity. The program compares identities and never looks inside.
abbrev pub PeerId : Type 0
PeerId = ℕ

abbrev pub Bytes : Type 0
Bytes = List ℕ

-- The components of a multiaddress that the program tells apart; `other` is any further one. The
-- payload of `ip4` and `ip6` is the address as a number.
pub data Protocol : Type 0 where
  ip4 ip6 tcp other : ℕ → Protocol

abbrev pub Multiaddr : Type 0
Multiaddr = List Protocol

-- A node on the internet. Two of them are equal if their identities are.
pub record AddressablePeer : Type 0 where
  pub peer_id : PeerId
  pub addresses : List Multiaddr

-- The wire form of a peer.
pub record PeerRecord : Type 0 where
  pub peer_id : Bytes
  pub addresses : List Bytes

-- An entry of an IHAVE message.
pub record MessageRef : Type 0 where
  pub id : ℕ
  pub hop : ℕ

pub data Action : Type 0 where
  join : (ttl : ℕ) (peer : PeerRecord) → Action
  forward_join : (ttl : ℕ) (peer : PeerRecord) → Action
  neighbor : (priority : ℕ) (peer : PeerRecord) → Action
  shuffle : (ttl : ℕ) (origin : PeerRecord) (nodes : List PeerRecord) → Action
  shuffle_reply : (nodes : List PeerRecord) → Action
  disconnect : (alive : Bool) → Action
  message : (id hop : ℕ) (payload : Bytes) → Action
  ihave : (ihaves : List MessageRef) → Action
  prune : Action
  graft : (ids : List ℕ) → Action

pub record Rpc : Type 0 where
  pub topic : String
  pub action : Option Action

-- The numbers of the protobuf enumeration `Neighbor.Priority`.
abbrev pub priority_low : ℕ
priority_low = 0

abbrev pub priority_high : ℕ
priority_high = 1

pub data EpisubEvent : Type 0 where
  message_received : (topic : String) (id : ℕ) (payload : Bytes) → EpisubEvent
  subscribed : String → EpisubEvent
  peer_added : PeerId → EpisubEvent
  peer_removed : PeerId → EpisubEvent
  unsubscribed : String → EpisubEvent

-- What a poll hands to the swarm. A dial carries the size limit and the temporary flag of the
-- connection handler that it creates.
pub data NetworkAction : Type 0 where
  notify_handler : (peer : PeerId) (event : Rpc) → NetworkAction
  generate_event : EpisubEvent → NetworkAction
  dial :
      (peer : PeerId) (addresses : List Multiaddr) (max_transmit_size : ℕ) (temporary : Bool)
      → NetworkAction
  close_connection : (peer : PeerId) (connection : ℕ) → NetworkAction
