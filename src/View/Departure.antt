-- ===== src/View/Departure.antt =====
-- What a DISCONNECT, a dropped connection and a SHUFFLEREPLY (src/network/episub/view.rs) leave in the
-- views.
use irn.Base.{
  ℕ, zero, suc, ◌<◌, ◌≡◌, ◌≢◌, refl, ap, ◌∙◌, sym, Bool, true, false, List, [], ◌∷◌, length,
  filter_map, nat_eq, ltb, retain, if_elim, if◌then◌else◌, inl, inr, Bool-cases, Eq-ℕ, arith,
  nat_eq_iff, beq_of_ne, le→ltb,
}
use irn.Base.Keyed.{
  contains, insert, remove, union, of_list, Distinct, contains-remove, contains-insert,
  length-insert-le,
}
use irn.Config.{max_passive_view_size}
use irn.Host.{Host}
use irn.Rpc.{PeerId, AddressablePeer, PeerRecord}
use irn.View.State.{
  HyParView, peer_key, try_from, add_node_to_passive_view, trim_passive, add_all_to_passive_view,
}
use irn.View.{inject_disconnect, inject_shuffle_reply, drain_excess}
use irn.View.Eviction.{none_kept}
use irn.View.Bounds.{SameActive, add_all-SameActive}

-- The view of a DISCONNECT once the passive view is settled.
abbrev settled : Host → HyParView → PeerId → Bool → HyParView
settled h v peer alive =
    if alive
    then add_all_to_passive_view h v (retain (λ p. nat_eq p.peer_id peer) v.active)
    else record v { passive = remove peer_key peer v.passive }

settled-SameActive :
    (h : Host) (v : HyParView) (peer : PeerId) (alive : Bool)
    → SameActive v (settled h v peer alive)
settled-SameActive h v peer alive =
    if_elim (SameActive v) alive
      (λ _. add_all-SameActive h (retain (λ p. nat_eq p.peer_id peer) v.active) v)
      (λ _. record { members = refl; limits = refl; owner = refl })

-- After a DISCONNECT the active view has exactly its former members but the peer.
pub contains-inject_disconnect :
    (h : Host) (v : HyParView) (peer k : PeerId) (alive : Bool)
    → contains peer_key k (inject_disconnect h v peer alive).active
      ≡ (if nat_eq peer k then false else contains peer_key k v.active)
unfolding inject_disconnect
contains-inject_disconnect h v peer k alive =
    let w = settled h v peer alive in
    let s = settled-SameActive h v peer alive in
    let P : HyParView → Type 0 = λ u.
      contains peer_key k u.active
      ≡ (if nat_eq peer k then false else contains peer_key k v.active) in
    if_elim P (contains peer_key peer w.active)
      (λ _.
        contains-remove peer_key k peer w.active
        ∙ ap (λ xs. if nat_eq peer k then false else contains peer_key k xs) s.members)
      (λ absent.
        ap (contains peer_key k) s.members
        ∙ ground (arith, nat_eq_iff peer k, ap (contains peer_key peer) s.members))

-- A DISCONNECT of a peer that is not alive removes it from the passive view too, and no other peer.
pub contains-inject_disconnect_dead :
    (h : Host) (v : HyParView) (peer k : PeerId)
    → contains peer_key k (inject_disconnect h v peer false).passive
      ≡ (if nat_eq peer k then false else contains peer_key k v.passive)
unfolding inject_disconnect
contains-inject_disconnect_dead h v peer k =
    let P : HyParView → Type 0 = λ u.
      contains peer_key k u.passive
      ≡ (if nat_eq peer k then false else contains peer_key k v.passive) in
    if_elim P (contains peer_key peer v.active) (λ _. contains-remove peer_key k peer v.passive)
      (λ _. contains-remove peer_key k peer v.passive)

only_member :
    (peer : PeerId) (xs : List AddressablePeer)
    → Distinct peer_key xs
    → contains peer_key peer xs ≡ true
    → (x : AddressablePeer) × (retain (λ p. nat_eq p.peer_id peer) xs ≡ x ∷ []) × (x.peer_id ≡ peer)
only_member peer [] d e = cc
only_member peer (x ∷ xs) d e = elim (Bool-cases (nat_eq x.peer_id peer)) [
  | inl hit ↦ (
    x,
    rw (hit, none_kept peer xs (ground (arith, nat_eq_iff x.peer_id peer))),
    (nat_eq_iff x.peer_id peer).0 hit,
  )
  | inr miss ↦ rw miss (only_member peer xs d.1 (ground arith))
]

passivated :
    (h : Host) (v : HyParView) (x : AddressablePeer)
    → x.peer_id ≢ v.local_node.peer_id
    → length v.passive < max_passive_view_size v.config
    → contains peer_key x.peer_id (add_node_to_passive_view h v x).passive ≡ true
unfolding add_node_to_passive_view trim_passive
passivated h v x other room =
    rw
      (
        beq_of_ne x.peer_id v.local_node.peer_id other,
        le→ltb (max_passive_view_size v.config) (length (insert peer_key x v.passive))
            (omega (arith, length-insert-le peer_key x v.passive)),
      )
      (ground
        (arith, contains-insert peer_key x.peer_id x v.passive, nat_eq_iff x.peer_id x.peer_id))

-- A peer that leaves alive moves to the passive view, if that has room for one more.
pub inject_disconnect-kept :
    (h : Host) (v : HyParView) (peer : PeerId)
    → Distinct peer_key v.active
    → contains peer_key peer v.active ≡ true
    → peer ≢ v.local_node.peer_id
    → length v.passive < max_passive_view_size v.config
    → contains peer_key peer (inject_disconnect h v peer true).passive ≡ true
unfolding inject_disconnect add_all_to_passive_view
inject_disconnect-kept h v peer d here other room =
    let (x, only, is_peer) = only_member peer v.active d here in
    let P : HyParView → Type 0 = λ u. contains peer_key peer u.passive ≡ true in
    let added : contains peer_key peer (add_node_to_passive_view h v x).passive ≡ true =
      rw is_peer at (passivated h v x (λ e. other (sym is_peer ∙ e)) room) in
    let moved : P (settled h v peer true) = rw only added in
    if_elim P (contains peer_key peer (settled h v peer true).active) (λ _. moved) (λ _. moved)

drain_excess_nil : (fuel max : ℕ) → drain_excess fuel max [] ≡ []
unfolding drain_excess
drain_excess_nil zero max = refl
drain_excess_nil (suc fuel) max = ground (arith, drain_excess_nil fuel max)

-- The peers of a reply join the passive view if all of them fit, and a peer that both know has the
-- addresses of the larger of the two sets, of the passive view if they are equal; if they do not fit,
-- the passive view is left empty, without any of its peers, old or new.
pub inject_shuffle_reply-passive :
    (h : Host) (v : HyParView) (nodes : List PeerRecord)
    → let merged = union peer_key v.passive (of_list peer_key (filter_map (try_from h) nodes)) in
      let limit = max_passive_view_size v.config in
      (inject_shuffle_reply h v nodes).passive ≡ (if ltb limit (length merged) then [] else merged)
unfolding inject_shuffle_reply drain_excess
inject_shuffle_reply-passive h v nodes =
    let merged = union peer_key v.passive (of_list peer_key (filter_map (try_from h) nodes)) in
    rw (drain_excess_nil (length merged) (max_passive_view_size v.config))
