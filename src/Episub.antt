-- ===== src/Episub.antt =====
-- src/network/episub/behaviour.rs, Episub: the network behaviour that owns the meshes of all topics, and what
-- the swarm calls of it. A call that panics in the source is `none`.
mod State
pub mod Address
pub mod Calls
pub mod Topics
pub mod Subscribed
pub mod Standing
pub mod Knowing
pub mod Keeping
pub mod Isolation
pub mod Verdict
pub mod Crashing
pub mod Joining
mod Tests
pub use State.{
  Joined, Known, topic_key, known_key, Episub, PublishError, ConnectedPoint, DialError,
  PollParameters, emit_all, with_topics, joined, disconnect_on, Published,
}
unfoldable pub use State.{new, subscribe, _unsubscibe, publish, force_disconnect, ban_peer}
use irn.Base.{
  ℕ, ◌+◌, String, Bool, true, false, not, ◌&&◌, Option, none, some, List, [], ◌∷◌, ◌++◌, map,
  is_empty, retain, if◌then◌else◌, ◌==◌, Eq-ℕ, Eq-String,
}
use irn.Base.Keyed.{contains, find, insert, put, remove, of_list, whole}
use irn.Config.{Config}
use irn.Host.{Host}
use irn.Rpc.{PeerId, Bytes, Multiaddr, AddressablePeer, Action, Rpc, EpisubEvent, NetworkAction}
use irn.Topic
use irn.Topic.{TopicMesh, Outcome}
use irn.View.{starved, is_active}
use Address.{Eq-Multiaddr, is_local_address}

-- Whether a topic wants a peer: it has too few members, and the peer is none and may be one.
unfoldable pub wants : Config → PeerId → Joined → Bool
wants c peer j =
    starved j.mesh.nodes && (not (is_active j.mesh.nodes peer) && c.authorizer j.topic peer)

-- A JOIN to the peer on each topic that wants it; the address is unwrapped there.
unfoldable pub join_topics :
    Host → Config → PeerId → Option Known → List Joined → Option (List Joined)
join_topics h c peer known [] = some []
join_topics h c peer known (j ∷ rest) =
    let others = join_topics h c peer known rest in
    if wants c peer j
    then (elim known [
      | none ↦ none
      | some k ↦ elim others [
        | none ↦ none
        | some js ↦ some (
            joined j.topic
              (Topic.initiate_join h j.mesh (record { peer_id = peer; addresses = k.address ∷ [] }))
            ∷ js)
      ]
    ])
    else elim others [ none ↦ none | some js ↦ some (j ∷ js) ]

unfoldable pub request_join_for_starving_topics : Host → Episub → PeerId → Option Episub
request_join_for_starving_topics h e peer =
    elim (join_topics h e.config peer (find known_key peer e.peer_addresses) e.topics) [
      | none ↦ none
      | some topics ↦ some (with_topics e topics)
    ]

abbrev pub is_dialer : ConnectedPoint → Bool
is_dialer (ConnectedPoint.dialer a) = true
is_dialer (ConnectedPoint.listener a) = false

abbrev pub remote_address : ConnectedPoint → Multiaddr
remote_address (ConnectedPoint.dialer a) = a
remote_address (ConnectedPoint.listener a) = a

unfoldable pub inject_connection_established :
    Host → Episub → PeerId → ℕ → ConnectedPoint → Option Episub
inject_connection_established h e peer connection endpoint =
    if contains whole peer e.banned_peers
    then some (force_disconnect e peer connection)
    else let known : Known = record { peer = peer; address = remote_address endpoint } in
      let w : Episub = record e { peer_addresses = put known_key known e.peer_addresses } in
      if is_dialer endpoint
      then (elim e.local_node [
        | some node ↦ request_join_for_starving_topics h w peer
        | none ↦ some (record w { early_peers = insert whole peer e.early_peers })
      ])
      else some w

-- The node with other addresses, if this node knows itself.
unfoldable pub with_addresses : Episub → (List Multiaddr → List Multiaddr) → Episub
with_addresses e f = elim e.local_node [
  | none ↦ e
  | some node ↦ record e { local_node = some (record node { addresses = f node.addresses }) }
]

unfoldable pub inject_new_listen_addr : Episub → Multiaddr → Episub
inject_new_listen_addr e addr =
    if not (is_local_address addr) then with_addresses e (insert whole addr) else e

unfoldable pub inject_expired_listen_addr : Episub → Multiaddr → Episub
inject_expired_listen_addr e addr = with_addresses e (retain (λ a. not (a == addr)))

-- Every topic loses the peer.
unfoldable pub disconnected_all : Host → Episub → PeerId → Bool → Episub
disconnected_all h e peer alive =
    with_topics e (map (λ j. joined j.topic (Topic.disconnected h j.mesh peer alive)) e.topics)

unfoldable pub inject_dial_failure : Host → Episub → Option PeerId → DialError → Episub
inject_dial_failure h e peer DialError.dial_peer_condition_false = e
inject_dial_failure h e none DialError.other_error = e
inject_dial_failure h e (some peer) DialError.other_error = disconnected_all h e peer false

unfoldable pub inject_connection_closed : Host → Episub → PeerId → Episub
inject_connection_closed h e peer = disconnected_all h e peer true

-- The node after the mesh of a topic has answered.
unfoldable pub settle : Episub → PeerId → ℕ → String → Outcome → Option Episub
settle e peer connection topic (Outcome.ingested m) =
    some (with_topics e (put topic_key (joined topic m) e.topics))
settle e peer connection topic (Outcome.rejected violation m) =
    some (ban_peer (with_topics e (put topic_key (joined topic m) e.topics)) peer connection)
settle e peer connection topic Outcome.panicked = none

unfoldable pub inject_event : Host → Episub → PeerId → ℕ → Rpc → ℕ → Option Episub
inject_event h e peer connection event now =
    if contains whole peer e.banned_peers
    then some (force_disconnect e peer connection)
    else if not (e.config.authorizer event.topic peer)
    then some (force_disconnect e peer connection)
    else elim event.action [
      | none ↦ some (ban_peer e peer connection)
      | some action ↦ elim (find topic_key event.topic e.topics) [
        | some j ↦
            settle e peer connection event.topic (Topic.inject_rpc_call h j.mesh peer event now)
        | none ↦
            some
              (force_disconnect (emit_all e (disconnect_on event.topic peer ∷ [])) peer connection)
      ]
    ]

-- A mesh for each pending topic that has none.
unfoldable pub join_pending : Config → AddressablePeer → ℕ → List String → List Joined → List Joined
join_pending c node now [] topics = topics
join_pending c node now (t ∷ rest) topics = join_pending c node now rest (
    if not (contains topic_key t topics)
    then put topic_key (joined t (Topic.new t c node now)) topics
    else topics)

-- A join request to each of the peers.
unfoldable pub request_all : Host → Episub → List PeerId → Option Episub
request_all h e [] = some e
request_all h e (p ∷ rest) = elim (request_join_for_starving_topics h e p) [
  | none ↦ none
  | some u ↦ request_all h u rest
]

unfoldable pub update_local_node_info : Host → Episub → PollParameters → ℕ → Option Episub
update_local_node_info h e params now = elim e.local_node [
  | some node ↦ some e
  | none ↦
      let addresses = of_list whole (
        retain (λ a. not (is_local_address a))
          (params.external_addresses ++ params.listened_addresses)) in
      if not (is_empty addresses)
      then (let node : AddressablePeer = record {
        peer_id = params.local_peer_id;
        addresses = addresses;
      } in
          request_all h
            (record e {
              local_node = some node;
              topics = join_pending e.config node now e.pending_topics e.topics;
              pending_topics = [];
              early_peers = [];
            })
            e.early_peers)
      else some e
]

-- The first event of the meshes, in order; a mesh behind it is not polled.
unfoldable pub poll_meshes : Host → List Joined → ℕ → Option (Option NetworkAction × List Joined)
poll_meshes h [] now = some (none, [])
poll_meshes h (j ∷ rest) now =
    let later = poll_meshes h rest now in
    elim (Topic.poll h j.mesh now) [
      | none ↦ none
      | some (some a, m) ↦ some (some a, joined j.topic m ∷ rest)
      | some (none, m) ↦ elim later [ none ↦ none | some (a, js) ↦ some (a, joined j.topic m ∷ js) ]
    ]

unfoldable pub poll_from :
    Host → Episub → ℕ → List NetworkAction → Option (Option NetworkAction × Episub)
poll_from h e now (a ∷ rest) = some (some a, record e { out_events = rest })
poll_from h e now [] = elim (poll_meshes h e.topics now) [
  | none ↦ none
  | some (a, topics) ↦ some (a, with_topics e topics)
]

unfoldable pub poll : Host → Episub → PollParameters → ℕ → Option (Option NetworkAction × Episub)
poll h e params now = elim (update_local_node_info h e params now) [
  | none ↦ none
  | some u ↦ poll_from h u now u.out_events
]
