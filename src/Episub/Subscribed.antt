-- ===== src/Episub/Subscribed.antt =====
-- The topics of a node, as meshes or among the pending ones, through what the swarm calls.
use irn.Base.{
  ℕ, String, ◌≡◌, refl, sym, ◌∙◌, Bool, true, ◌||◌, Option, none, some, List, [], ◌∷◌, arith,
  Option-cases, if_elim, Bool-cases, inl, inr, Eq-ℕ, Eq-String, is_empty, not,
}
use irn.Base.Keyed.{contains, insert, put, find, whole, contains-put}
use irn.Host.{Host}
use irn.Rpc.{PeerId, AddressablePeer, NetworkAction, Rpc}
use irn.Topic
use irn.Topic.{TopicMesh, Outcome}
use irn.Episub.{
  Episub, Joined, topic_key, known_key, is_dialer, remote_address, joined, with_topics, join_topics,
  join_pending, request_join_for_starving_topics, request_all, update_local_node_info,
  inject_connection_established, disconnected_all, inject_event, settle, ban_peer, force_disconnect,
  poll, poll_from, poll_meshes, PollParameters, ConnectedPoint,
}
use irn.Episub.Address.{Eq-Multiaddr}
use irn.Episub.Topics.{
  contains-join_topics, contains-join_pending, contains-poll_meshes, contains-map_meshes,
}
use irn.Episub.Joining.{own_addresses}

abbrev pub IsSubscribed : String → Episub → Type 0
IsSubscribed t e = (contains topic_key t e.topics || contains whole t e.pending_topics) ≡ true

-- The topic stays through a call that may panic.
abbrev pub Stays : String → Episub → Option Episub → Type 0
Stays t e none = Unit
Stays t e (some u) = IsSubscribed t e → IsSubscribed t u

module _ (h : Host) (t : String) where
  pub request-IsSubscribed :
      (e : Episub) (p : PeerId) {u : Episub}
      → request_join_for_starving_topics h e p ≡ some u
      → IsSubscribed t e
      → IsSubscribed t u
  unfolding request_join_for_starving_topics
  request-IsSubscribed e p {u} r s =
      elim (Option-cases
        (join_topics h e.config p (find (λ k. k.peer) p e.peer_addresses) e.topics)) [
          | inl j ↦ absurd (ground arith)
          | inr (ts, j) ↦
              let same =
                contains-join_topics h t e.config p (find (λ k. k.peer) p e.peer_addresses) e.topics
                  {ts = ts} j in
              let out : with_topics e ts ≡ u = ground arith in rw (sym out) (rw same s)
        ]

  request_all-IsSubscribed :
      (ps : List PeerId) (e : Episub) {u : Episub}
      → request_all h e ps ≡ some u
      → IsSubscribed t e
      → IsSubscribed t u
  unfolding request_all
  request_all-IsSubscribed [] e {u} r s = let out : e ≡ u = ground arith in rw (sym out) s
  request_all-IsSubscribed (p ∷ ps) e {u} r s =
      elim (Option-cases (request_join_for_starving_topics h e p)) [
        | inl j ↦ absurd (ground arith)
        | inr (w, j) ↦
            request_all-IsSubscribed ps w {u = u} (ground arith)
              (request-IsSubscribed e p {u = w} j s)
      ]

  pub update-IsSubscribed :
      (e : Episub) (params : PollParameters) (now : ℕ) {u : Episub}
      → update_local_node_info h e params now ≡ some u
      → IsSubscribed t e
      → IsSubscribed t u
  unfolding update_local_node_info
  update-IsSubscribed e params now {u} r s = elim (Option-cases e.local_node) [
    | inr (node, n) ↦ let out : e ≡ u = ground arith in rw (sym out) s
    | inl n ↦
        let own = own_addresses params in
        let node : AddressablePeer = record { peer_id = params.local_peer_id; addresses = own } in
        let topics = join_pending e.config node now e.pending_topics e.topics in
        let w : Episub = record e {
          local_node = some node;
          topics = topics;
          pending_topics = [];
          early_peers = [];
        } in
        let all_in : contains topic_key t topics ≡ true =
          contains-join_pending t e.config node now e.pending_topics e.topics ∙ s in
        elim (Bool-cases (is_empty own)) [
          | inl bare ↦ let out : e ≡ u = ground arith in rw (sym out) s
          | inr seen ↦
              let asked : request_all h w e.early_peers ≡ some u = ground arith in
              request_all-IsSubscribed e.early_peers w {u = u} asked (rw all_in refl)
        ]
  ]

  pub disconnected_all-IsSubscribed :
      (e : Episub) (p : PeerId) (alive : Bool)
      → IsSubscribed t e
      → IsSubscribed t (disconnected_all h e p alive)
  unfolding disconnected_all
  disconnected_all-IsSubscribed e p alive s =
      rw (contains-map_meshes t (λ m. Topic.disconnected h m p alive) e.topics) s

  -- A mesh that is put among the others.
  pub put-IsSubscribed :
      (e : Episub) (j : Joined)
      → IsSubscribed t e
      → IsSubscribed t (with_topics e (put topic_key j e.topics))
  put-IsSubscribed e j s = ground (arith, contains-put topic_key t j e.topics)

  settle-Stays :
      (e : Episub) (p : PeerId) (connection : ℕ) (topic : String) (o : Outcome)
      → Stays t e (settle e p connection topic o)
  unfolding settle ban_peer force_disconnect
  settle-Stays e p connection topic (Outcome.ingested m) = put-IsSubscribed e (joined topic m)
  settle-Stays e p connection topic (Outcome.rejected violation m) =
      put-IsSubscribed e (joined topic m)
  settle-Stays e p connection topic Outcome.panicked = tt

  pub event-Stays :
      (e : Episub) (p : PeerId) (connection : ℕ) (event : Rpc) (now : ℕ)
      → Stays t e (inject_event h e p connection event now)
  unfolding inject_event force_disconnect ban_peer
  event-Stays e p connection event now =
      if_elim (Stays t e) (contains whole p e.banned_peers) (λ _ s. s)
        λ _.
          if_elim (Stays t e) (not (e.config.authorizer event.topic p)) (λ _ s. s)
            λ _. elim (Option-cases event.action) [
              | inl empty ↦ simp empty (λ s. s)
              | inr (a, acts) ↦
                  simp acts (elim (Option-cases (find topic_key event.topic e.topics)) [
                    | inl lost ↦ simp lost (λ s. s)
                    | inr (j, found) ↦ simp found (
                        settle-Stays e p connection event.topic
                          (Topic.inject_rpc_call h j.mesh p event now))
                  ])
            ]

  stays_some :
      (e : Episub) (o : Option Episub)
      → ((u : Episub) → o ≡ some u → IsSubscribed t e → IsSubscribed t u)
      → Stays t e o
  stays_some e none f = tt
  stays_some e (some u) f = f u refl

  dialled :
      (e w : Episub) (p : PeerId) (o : Option AddressablePeer)
      → (IsSubscribed t e → IsSubscribed t w)
      → Stays t e (elim o [
        | some node ↦ request_join_for_starving_topics h w p
        | none ↦ some (record w { early_peers = insert whole p w.early_peers })
      ])
  dialled e w p none f = f
  dialled e w p (some node) f =
      stays_some e (request_join_for_starving_topics h w p)
        (λ u r s. request-IsSubscribed w p {u = u} r (f s))

  pub established-Stays :
      (e : Episub) (p : PeerId) (connection : ℕ) (endpoint : ConnectedPoint)
      → Stays t e (inject_connection_established h e p connection endpoint)
  unfolding inject_connection_established force_disconnect
  established-Stays e p connection endpoint =
      if_elim (Stays t e) (contains whole p e.banned_peers) (λ _ s. s)
        λ _.
          let w : Episub = record e {
            peer_addresses =
                put known_key (record { peer = p; address = remote_address endpoint })
                  e.peer_addresses;
          } in
          if_elim (Stays t e) (is_dialer endpoint) (λ _. dialled e w p e.local_node (λ s. s))
            (λ _ s. s)

  polled_from :
      (e : Episub) (now : ℕ) (own : List NetworkAction) {a : Option NetworkAction} {u : Episub}
      → poll_from h e now own ≡ some (a, u)
      → IsSubscribed t e
      → IsSubscribed t u
  unfolding poll_from
  polled_from e now (b ∷ rest) {a} {u} r s =
      let out : (record e { out_events = rest }) ≡ u = ground arith in rw (sym out) s
  polled_from e now [] {a} {u} r s = elim (Option-cases (poll_meshes h e.topics now)) [
    | inl f ↦ absurd (ground arith)
    | inr ((b, ts), f) ↦
        let same = contains-poll_meshes h t e.topics now {a = b} {ts = ts} f in
        let out : with_topics e ts ≡ u = ground arith in rw (sym out) (rw same s)
  ]

  pub polled-IsSubscribed :
      (e : Episub) (params : PollParameters) (now : ℕ) {a : Option NetworkAction} {u : Episub}
      → poll h e params now ≡ some (a, u)
      → IsSubscribed t e
      → IsSubscribed t u
  unfolding poll
  polled-IsSubscribed e params now {a} {u} r s =
      elim (Option-cases (update_local_node_info h e params now)) [
        | inl f ↦ absurd (ground arith)
        | inr (w, f) ↦
            let rest : poll_from h w now w.out_events ≡ some (a, u) = ground arith in
            polled_from w now w.out_events {a = a} {u = u} rest
              (update-IsSubscribed e params now {u = w} f s)
      ]
