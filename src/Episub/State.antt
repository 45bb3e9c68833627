-- ===== src/Episub/State.antt =====
-- src/network/episub/behaviour.rs: the state of an Episub, and what the application does with it. The
-- maps and sets are sequences, whose order stands for the order of iteration; `draws` counts the reads
-- of the thread's random generator.
use irn.Base.{
  ℕ, ◌+◌, String, Bool, true, false, Option, none, some, List, [], ◌∷◌, ◌++◌, map, if◌then◌else◌,
  Eq-ℕ, Eq-String,
}
use irn.Base.Keyed.{find, insert, put, remove, whole}
use irn.Config.{Config}
use irn.Host.{Host}
use irn.Rpc.{PeerId, Bytes, Multiaddr, AddressablePeer, Action, EpisubEvent, NetworkAction}
use irn.Topic
use irn.Topic.{TopicMesh, Outcome}

-- The mesh of a topic.
pub record Joined : Type 0 where
  pub topic : String
  pub mesh : TopicMesh

-- The address of a peer.
pub record Known : Type 0 where
  pub peer : PeerId
  pub address : Multiaddr

abbrev pub topic_key : Joined → String
topic_key j = j.topic

abbrev pub known_key : Known → PeerId
known_key k = k.peer

pub record Episub : Type 0 where
  pub config : Config
  pub local_node : Option AddressablePeer
  pub topics : List Joined
  pub banned_peers : List PeerId
  pub pending_topics : List String
  pub out_events : List NetworkAction
  pub peer_addresses : List Known
  pub early_peers : List PeerId
  pub draws : ℕ

pub data PublishError : Type 0 where
  topic_not_subscribed io : PublishError

-- Whose side dialled, with the address of the other one.
pub data ConnectedPoint : Type 0 where
  dialer listener : (address : Multiaddr) → ConnectedPoint

-- `DialError`: the variant that is told apart, and any other.
pub data DialError : Type 0 where
  dial_peer_condition_false other_error : DialError

-- What the swarm tells a poll of this node.
pub record PollParameters : Type 0 where
  pub local_peer_id : PeerId
  pub external_addresses : List Multiaddr
  pub listened_addresses : List Multiaddr

unfoldable pub new : Config → Episub
new config = record {
  config = config;
  local_node = none;
  topics = [];
  banned_peers = [];
  pending_topics = [];
  out_events = [];
  peer_addresses = [];
  early_peers = [];
  draws = 0;
}

abbrev pub emit_all : Episub → List NetworkAction → Episub
emit_all e actions = record e { out_events = e.out_events ++ actions }

abbrev pub with_topics : Episub → List Joined → Episub
with_topics e topics = record e { topics = topics }

-- A mesh with its topic.
abbrev pub joined : String → TopicMesh → Joined
joined topic mesh = record { topic = topic; mesh = mesh }

unfoldable pub subscribe : Episub → String → ℕ → Episub × Bool
subscribe e topic now = elim (find topic_key topic e.topics) [
  | some mesh ↦ (e, false)
  | none ↦ (
    elim e.local_node [
      | some node ↦
          emit_all
            (with_topics e
              (put topic_key (joined topic (Topic.new topic e.config node now)) e.topics))
            (NetworkAction.generate_event (EpisubEvent.subscribed topic) ∷ [])
      | none ↦ record e { pending_topics = insert whole topic e.pending_topics }
    ],
    true,
  )
]

-- A DISCONNECT that takes this node out of the peer's passive view too.
abbrev pub disconnect_on : String → PeerId → NetworkAction
disconnect_on topic peer =
    NetworkAction.notify_handler peer
      (record { topic = topic; action = some (Action.disconnect false) })

unfoldable pub _unsubscibe : Episub → String → Episub × Bool
_unsubscibe e topic = elim (find topic_key topic e.topics) [
  | none ↦ (e, false)
  | some j ↦ (
    emit_all
        (record e {
          pending_topics = remove whole topic e.pending_topics;
          topics = remove topic_key topic e.topics;
        })
        (map (λ p. disconnect_on topic p.peer_id) j.mesh.nodes.active
          ++ NetworkAction.generate_event (EpisubEvent.unsubscribed topic) ∷ []),
    true,
  )
]

-- `Result<u64, PublishError>`.
pub data Published : Type 0 where
  ok : (id : ℕ) → Published
  error : PublishError → Published

unfoldable pub publish : Host → Episub → String → Bytes → ℕ → Episub × Published
publish h e topic message now = elim (find topic_key topic e.topics) [
  | none ↦ (e, Published.error PublishError.topic_not_subscribed)
  | some j ↦
      let id = h.gen_id e.draws in
      let w : Episub = record e { draws = e.draws + 1 } in
      elim (if e.config.enable_compression
        then h.encode_all message e.config.compression_level
        else some message) [
          | none ↦ (w, Published.error PublishError.io)
          | some payload ↦ (
            with_topics w
                (put topic_key (joined topic (Topic.publish j.mesh id payload now)) e.topics),
            Published.ok id,
          )
        ]
]

unfoldable pub force_disconnect : Episub → PeerId → ℕ → Episub
force_disconnect e peer connection =
    emit_all e (NetworkAction.close_connection peer connection ∷ [])

unfoldable pub ban_peer : Episub → PeerId → ℕ → Episub
ban_peer e peer connection =
    force_disconnect
      (record e {
        peer_addresses = remove known_key peer e.peer_addresses;
        banned_peers = insert whole peer e.banned_peers;
      })
      peer connection
