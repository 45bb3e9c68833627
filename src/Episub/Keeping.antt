-- ===== src/Episub/Keeping.antt =====
-- What one operation of a node keeps: its bans, and what it owes to knowing an address of its own.
use irn.Base.{
  ℕ, ◌≡◌, refl, sym, String, true, Option, none, some, List, [], ◌∷◌, arith, Option-cases,
  Bool-cases, inl, inr, Eq-ℕ, Eq-String, if_elim, is_empty,
}
use irn.Base.Keyed.{contains, insert, find, put, whole, contains-insert}
use irn.Config.{Config}
use irn.Host.{Host}
use irn.Rpc.{PeerId, Bytes, AddressablePeer, Multiaddr, NetworkAction}
use irn.Episub.{
  Episub, Joined, Known, known_key, with_topics, join_topics, join_pending,
  request_join_for_starving_topics, request_all, update_local_node_info, subscribe, _unsubscibe,
  publish, inject_connection_established, ban_peer, force_disconnect, poll_meshes, PollParameters,
  ConnectedPoint, is_dialer, remote_address,
}
use irn.Episub.Address.{Eq-Multiaddr}
use irn.Episub.Joining.{own_addresses}

-- Until a poll finds an own address, and makes the record of the node, there is no mesh; from then on
-- nothing waits for it any more.
abbrev pub Settled : Option AddressablePeer → List Joined → List String → List PeerId → Type 0
Settled none topics pending early = topics ≡ []
Settled (some node) topics pending early = (pending ≡ []) × (early ≡ [])

abbrev pub IsSettled : Episub → Type 0
IsSettled e = Settled e.local_node e.topics e.pending_topics e.early_peers

-- The second state keeps the bans of the first, and is settled if the first is.
pub record Keeps (e u : Episub) : Type 0 where
  pub bans :
      (k : PeerId) → contains whole k e.banned_peers ≡ true → contains whole k u.banned_peers ≡ true
  pub settles : IsSettled e → IsSettled u

abbrev pub KeepsSome : Episub → Option Episub → Type 0
KeepsSome e none = Unit
KeepsSome e (some u) = Keeps e u

-- Another sequence of meshes, empty if the first is, with whatever is queued.
pub Keeps-topics :
    (e : Episub) (topics : List Joined) (actions : List NetworkAction) (draws : ℕ)
    → (e.topics ≡ [] → topics ≡ [])
    → Keeps e (record e { topics = topics; out_events = actions; draws = draws })
Keeps-topics e topics actions draws f = record {
  bans = λ k b. b;
  settles = elim (Option-cases e.local_node) [ inl n ↦ rw n f | inr (node, n) ↦ rw n (λ s. s) ];
}

pub Keeps-trans : {e u w : Episub} → Keeps e u → Keeps u w → Keeps e w
Keeps-trans a b = record {
  bans = λ k i. b.bans k (a.bans k i);
  settles = λ s. b.settles (a.settles s);
}

pub ban_peer-Keeps :
    (e : Episub) (peer : PeerId) (connection : ℕ) → Keeps e (ban_peer e peer connection)
unfolding ban_peer force_disconnect
ban_peer-Keeps e peer connection = record {
  bans = λ k b. ground (arith, contains-insert whole k peer e.banned_peers);
  settles = λ s. s;
}

pub subscribe-Keeps : (e : Episub) (topic : String) (now : ℕ) → Keeps e (subscribe e topic now).0
unfolding subscribe
subscribe-Keeps e topic now = record { bans = λ k b. ground arith; settles = ground arith }

pub _unsubscibe-Keeps : (e : Episub) (topic : String) → Keeps e (_unsubscibe e topic).0
unfolding _unsubscibe
_unsubscibe-Keeps e topic = record { bans = λ k b. ground arith; settles = ground arith }

pub publish-Keeps :
    (h : Host) (e : Episub) (topic : String) (message : Bytes) (now : ℕ)
    → Keeps e (publish h e topic message now).0
unfolding publish
publish-Keeps h e topic message now = record { bans = λ k b. ground arith; settles = ground arith }

pub keeps_some :
    (e : Episub) (o : Option Episub) → ((u : Episub) → o ≡ some u → Keeps e u) → KeepsSome e o
keeps_some e none f = tt
keeps_some e (some u) f = f u refl

join_topics-nil :
    (h : Host) (c : Config) (p : PeerId) (known : Option Known)
    → join_topics h c p known [] ≡ some []
unfolding join_topics
join_topics-nil h c p known = refl

module _ (h : Host) where
  request-Keeps :
      (e : Episub) (p : PeerId) {u : Episub}
      → request_join_for_starving_topics h e p ≡ some u
      → Keeps e u
  unfolding request_join_for_starving_topics
  request-Keeps e p {u} r =
      elim (Option-cases (join_topics h e.config p (find known_key p e.peer_addresses) e.topics)) [
        | inl j ↦ absurd (ground arith)
        | inr (ts, j) ↦
            let out : with_topics e ts ≡ u = ground arith in
            rw (sym out) (
              Keeps-topics e ts e.out_events e.draws (λ bare.
                ground (arith, join_topics-nil h e.config p (find known_key p e.peer_addresses))))
      ]

  request_all-Keeps :
      (ps : List PeerId) (e : Episub) {u : Episub} → request_all h e ps ≡ some u → Keeps e u
  unfolding request_all
  request_all-Keeps [] e {u} r =
      let out : e ≡ u = ground arith in rw (sym out) (record { bans = λ k b. b; settles = λ s. s })
  request_all-Keeps (p ∷ ps) e {u} r =
      elim (Option-cases (request_join_for_starving_topics h e p)) [
        | inl j ↦ absurd (ground arith)
        | inr (w, j) ↦
            Keeps-trans (request-Keeps e p j) (request_all-Keeps ps w {u = u} (ground arith))
      ]

  pub update-Keeps :
      (e : Episub) (params : PollParameters) (now : ℕ) {u : Episub}
      → update_local_node_info h e params now ≡ some u
      → Keeps e u
  unfolding update_local_node_info
  update-Keeps e params now {u} r = elim (Option-cases e.local_node) [
    | inr (node, n) ↦
        let out : e ≡ u = ground arith in
        rw (sym out) (record { bans = λ k b. b; settles = λ s. s })
    | inl n ↦
        let own = own_addresses params in
        let node : AddressablePeer = record { peer_id = params.local_peer_id; addresses = own } in
        let w : Episub = record e {
          local_node = some node;
          topics = join_pending e.config node now e.pending_topics e.topics;
          pending_topics = [];
          early_peers = [];
        } in
        let start : Keeps e w = record { bans = λ k b. b; settles = λ s. (refl, refl) } in
        elim (Bool-cases (is_empty own)) [
          | inl bare ↦
              let out : e ≡ u = ground arith in
              rw (sym out) (record { bans = λ k b. b; settles = λ s. s })
          | inr seen ↦
              let asked : request_all h w e.early_peers ≡ some u = ground arith in
              Keeps-trans start (request_all-Keeps e.early_peers w asked)
        ]
  ]

  dialled :
      (e : Episub) (p : PeerId) (address : Multiaddr) (o : Option AddressablePeer)
      → e.local_node ≡ o
      → let known : Known = record { peer = p; address = address } in
        let w : Episub = record e { peer_addresses = put known_key known e.peer_addresses } in
        KeepsSome e (elim o [
          | some node ↦ request_join_for_starving_topics h w p
          | none ↦ some (record w { early_peers = insert whole p e.early_peers })
        ])
  dialled e p address none n = record { bans = λ k b. b; settles = λ s. simp n (simp n at s) }
  dialled e p address (some node) n =
      let known : Known = record { peer = p; address = address } in
      let w : Episub = record e { peer_addresses = put known_key known e.peer_addresses } in
      let start : Keeps e w = record { bans = λ k b. b; settles = λ s. s } in
      keeps_some e (request_join_for_starving_topics h w p)
        (λ u r. Keeps-trans start (request-Keeps w p r))

  pub established-Keeps :
      (e : Episub) (p : PeerId) (connection : ℕ) (endpoint : ConnectedPoint)
      → KeepsSome e (inject_connection_established h e p connection endpoint)
  unfolding inject_connection_established force_disconnect
  established-Keeps e p connection endpoint =
      if_elim (KeepsSome e) (contains whole p e.banned_peers)
        (λ _. record { bans = λ k b. b; settles = λ s. s })
        λ _.
          let w : Episub = record e {
            peer_addresses =
                put known_key (record { peer = p; address = remote_address endpoint })
                  e.peer_addresses;
          } in
          let start : Keeps e w = record { bans = λ k b. b; settles = λ s. s } in
          if_elim (KeepsSome e) (is_dialer endpoint)
            (λ _. dialled e p (remote_address endpoint) e.local_node refl) (λ _. start)

  pub poll_meshes-nil : (now : ℕ) → poll_meshes h [] now ≡ some (none, [])
  unfolding poll_meshes
  poll_meshes-nil now = refl
