-- ===== src/Episub/Joining.antt =====
-- The topics that a node joins, and the peers it asks.
use irn.Base.{
  ℕ, ◌≡◌, refl, String, Bool, true, false, not, ◌||◌, none, some, List, [], ◌∷◌, ◌++◌, arith,
  if◌then◌else◌, Eq-ℕ, Eq-String, if_elim, is_empty, retain,
}
use irn.Base.Keyed.{contains, find, put, whole, of_list}
use irn.Config.{Config, min_active_view_size}
use irn.Host.{Host}
use irn.Rpc.{PeerId, AddressablePeer, Multiaddr, NetworkAction}
use irn.Episub.{
  Episub, Joined, topic_key, known_key, joined, wants, join_topics, join_pending,
  request_join_for_starving_topics, request_all, update_local_node_info, new, subscribe,
  inject_connection_established, inject_event, ban_peer, force_disconnect, poll, PollParameters,
  ConnectedPoint,
}
use irn.Episub.Calls.{Call, call, run}
use irn.Episub.Address.{Eq-Multiaddr, is_local_address}
use irn.Topic
use irn.View
use irn.View.{starved, is_active}

-- Whether some topic wants the peer.
abbrev pub is_wanted : Config → PeerId → List Joined → Bool
is_wanted c peer [] = false
is_wanted c peer (j ∷ rest) = wants c peer j || is_wanted c peer rest

-- Without a known address, a request for a peer goes through exactly if no topic wants the peer.
join_topics-unknown :
    (h : Host) (c : Config) (peer : PeerId) (ts : List Joined)
    → join_topics h c peer none ts ≡ (if is_wanted c peer ts then none else some ts)
unfolding join_topics
join_topics-unknown h c peer [] = refl
join_topics-unknown h c peer (j ∷ rest) = ground (arith, join_topics-unknown h c peer rest)

-- A new mesh wants every peer that is authorized.
new-wants :
    (c : Config) (node : AddressablePeer) (topic : String) (peer : PeerId) (now : ℕ)
    → c.authorizer topic peer ≡ true
    → wants c peer (joined topic (Topic.new topic c node now)) ≡ true
unfolding wants Topic.new View.new starved is_active min_active_view_size
new-wants c node topic peer now allowed = ground arith

is_wanted-put :
    (c : Config) (peer : PeerId) (j : Joined) (ts : List Joined)
    → contains topic_key j.topic ts ≡ false
    → is_wanted c peer (put topic_key j ts) ≡ (is_wanted c peer ts || wants c peer j)
is_wanted-put c peer j [] e = ground arith
is_wanted-put c peer j (t ∷ ts) e = ground (arith, is_wanted-put c peer j ts)

is_wanted-join_pending :
    (c : Config) (node : AddressablePeer) (now : ℕ) (peer : PeerId) (pending : List String)
    (ts : List Joined)
    → is_wanted c peer ts ≡ true
    → is_wanted c peer (join_pending c node now pending ts) ≡ true
unfolding join_pending
is_wanted-join_pending c node now peer [] ts e = e
is_wanted-join_pending c node now peer (t ∷ rest) ts e =
    is_wanted-join_pending c node now peer rest _ (
      if_elim (λ us. is_wanted c peer us ≡ true) (not (contains topic_key t ts))
        (λ fresh. ground (arith, is_wanted-put c peer (joined t (Topic.new t c node now)) ts))
        (λ _. e))

request_all-stops :
    (h : Host) (e : Episub) (p : PeerId) (ps : List PeerId)
    → find known_key p e.peer_addresses ≡ none
    → is_wanted e.config p e.topics ≡ true
    → request_all h e (p ∷ ps) ≡ none
unfolding request_all request_join_for_starving_topics
request_all-stops h e p ps unknown wanted =
    ground (arith, join_topics-unknown h e.config p e.topics)

-- The addresses that a poll makes this node's own.
abbrev pub own_addresses : PollParameters → List Multiaddr
own_addresses params = of_list whole (
    retain (λ a. not (is_local_address a)) (params.external_addresses ++ params.listened_addresses))

join_pending-wanted :
    (c : Config) (node : AddressablePeer) (now : ℕ) (peer : PeerId) (topic : String)
    (ts : List String)
    → c.authorizer topic peer ≡ true
    → is_wanted c peer (join_pending c node now (topic ∷ ts) []) ≡ true
unfolding join_pending
join_pending-wanted c node now peer topic ts allowed =
    is_wanted-join_pending c node now peer ts _
      (ground (arith, new-wants c node topic peer now allowed))

-- A node that learns its first address panics if it has a pending topic on which the first early peer
-- is authorized, and has lost the address of that peer.
update_local_node_info-panics :
    (h : Host) (e : Episub) (params : PollParameters) (now : ℕ) (topic : String) (ts : List String)
    (p : PeerId) (ps : List PeerId)
    → e.local_node ≡ none
    → e.topics ≡ []
    → e.pending_topics ≡ topic ∷ ts
    → e.early_peers ≡ p ∷ ps
    → find known_key p e.peer_addresses ≡ none
    → e.config.authorizer topic p ≡ true
    → is_empty (own_addresses params) ≡ false
    → update_local_node_info h e params now ≡ none
unfolding update_local_node_info
update_local_node_info-panics h e params now topic ts p ps nobody bare pending early lost allowed
      seen =
    let node : AddressablePeer = record {
      peer_id = params.local_peer_id;
      addresses = own_addresses params;
    } in
    simp (update_local_node_info, nobody, bare, pending, early, seen)
      (request_all-stops h
        (record e {
          local_node = some node;
          topics = join_pending e.config node now (topic ∷ ts) [];
          pending_topics = [];
          early_peers = [];
        })
        p ps lost (join_pending-wanted e.config node now p topic ts allowed))

module _ (h : Host) (c : Config) (topic other : String) (p : PeerId) (connection : ℕ)
    (addr : Multiaddr) (params : PollParameters) (t : ℕ) where
  -- A node that subscribes and dials a peer before it knows an address of its own, and then receives
  -- an event without an action from that peer, panics in its next poll that shows it an address, if
  -- the peer is authorized on the topic of the event and on the topic subscribed to.
  pub run-panics :
      c.authorizer topic p ≡ true
      → c.authorizer other p ≡ true
      → is_empty (own_addresses params) ≡ false
      → run h (new c) (
          Call.subscribes topic t
          ∷ Call.connected p connection (ConnectedPoint.dialer addr)
          ∷ Call.receives p connection (record { topic = other; action = none }) t
          ∷ Call.polls params t
          ∷ [])
        ≡ none
  unfolding run call new subscribe inject_connection_established inject_event ban_peer
      force_disconnect poll
  run-panics allowed heard seen =
      let banned : Episub = record (new c) {
        pending_topics = topic ∷ [];
        early_peers = p ∷ [];
        banned_peers = p ∷ [];
        out_events = NetworkAction.close_connection p connection ∷ [];
      } in
      ground (
        arith,
        update_local_node_info-panics h banned params t topic [] p [] refl refl refl refl refl
            allowed seen,
      )
