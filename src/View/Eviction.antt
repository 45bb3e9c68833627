-- ===== src/View/Eviction.antt =====
-- `free_up_active_slot` draws the peer to evict from the passive view, and what follows from it for a
-- NEIGHBOR request; the requests that a full view turns down.
use irn.Base.{
  is_empty, append_assoc, ℕ, ◌+◌, ◌≡◌, ◌≢◌, refl, ap, ◌∙◌, Bool, true, false, List, [], ◌∷◌, ◌++◌,
  length, nat_eq, retain, if_elim, Option-cases, inl, inr, Eq-ℕ, arith, beq_of_ne, length-append,
}
use irn.Base.Keyed.{contains, remove_absent}
use irn.Host.{Host, IsLawful}
use irn.Rpc.{
  PeerId, AddressablePeer, NetworkAction, EpisubEvent, Action, priority_high, priority_low,
}
use irn.View.State.{
  HyParView, peer_key, notify, dial_peer, announce, to_record, add_node_to_active_view,
  add_all_to_passive_view, overconnected, is_active,
}
use irn.View.{free_up_active_slot, inject_disconnect, inject_neighbor}
use irn.View.Bounds.{SameActive, same, same_trans, passivate-SameActive}
use irn.View.Valid.{choose-contains}

-- No peer is in both views.
abbrev pub AreDisjoint : HyParView → Type 0
AreDisjoint v =
    (k : PeerId) → contains peer_key k v.passive ≡ true → contains peer_key k v.active ≡ false

-- Freeing a slot of the active view frees none while no peer is in both views: the members stay as
-- they are.
pub free_up_active_slot-SameActive :
    (h : Host) (v : HyParView) → IsLawful h → AreDisjoint v → SameActive v (free_up_active_slot h v)
unfolding free_up_active_slot
free_up_active_slot-SameActive h v laws apart =
    if_elim (SameActive v) (overconnected v)
      (λ _. elim (Option-cases (h.choose v.draws v.passive)) [
        | inl e ↦ rw e (record { members = refl; limits = refl; owner = refl })
        | inr (r, e) ↦ rw e (
            same_trans
              (record {
                members =
                    remove_absent peer_key r.peer_id v.active
                      (apart r.peer_id (choose-contains laws v.draws v.passive e));
                limits = refl;
                owner = refl;
              })
              (passivate-SameActive h _ r))
      ])
      (λ _. same)

activate-length :
    (h : Host) (v : HyParView) (node : AddressablePeer) (initiator : Bool)
    → node.peer_id ≢ v.local_node.peer_id
    → contains peer_key node.peer_id v.active ≡ false
    → length (add_node_to_active_view h v node initiator).active ≡ length v.active + 1
unfolding add_node_to_active_view
activate-length h v node initiator other fresh = ground (arith, length-append v.active (node ∷ []))

-- A NEIGHBOR request of high priority from a peer that is not active, and is not this node, to a view
-- at its limit makes the active view one larger, if no peer is in both views: over the limit.
pub inject_neighbor-overfull :
    (h : Host) (v : HyParView) (peer : AddressablePeer)
    → IsLawful h
    → AreDisjoint v
    → overconnected v ≡ true
    → peer.peer_id ≢ v.local_node.peer_id
    → is_active v peer.peer_id ≡ false
    → length (inject_neighbor h v peer priority_high).active ≡ length v.active + 1
unfolding inject_neighbor is_active
inject_neighbor-overfull h v peer laws apart full other fresh =
    let s = free_up_active_slot-SameActive h v laws apart in
    rw (fresh, full, inject_neighbor)
      (activate-length h (free_up_active_slot h v) peer false
          (λ e. other (e ∙ ap (λ (n : AddressablePeer). n.peer_id) s.owner)) (rw s.members fresh)
        ∙ ap (λ (xs : List AddressablePeer). length xs + 1) s.members)

pub none_kept :
    (k : PeerId) (xs : List AddressablePeer)
    → contains peer_key k xs ≡ false
    → retain (λ p. nat_eq p.peer_id k) xs ≡ []
none_kept k [] e = refl
none_kept k (x ∷ xs) e = ground (arith, none_kept k xs)

-- A NEIGHBOR request of low priority from a peer that is not active, to a view at its limit, changes
-- nothing at all: no message is sent and the peer does not enter the passive view.
pub inject_neighbor-refused :
    (h : Host) (v : HyParView) (peer : AddressablePeer) (priority : ℕ)
    → priority ≢ priority_high
    → overconnected v ≡ true
    → is_active v peer.peer_id ≡ false
    → inject_neighbor h v peer priority ≡ v
unfolding inject_neighbor is_active inject_disconnect add_all_to_passive_view
inject_neighbor-refused h v peer priority low full fresh = rw (
  fresh,
  full,
  beq_of_ne priority priority_high low,
  none_kept peer.peer_id v.active fresh,
  fresh,
)

is_empty-snoc : (xs : List AddressablePeer) (x : AddressablePeer) → is_empty (xs ++ x ∷ []) ≡ false
is_empty-snoc [] x = refl
is_empty-snoc (y ∷ xs) x = refl

-- A peer that enters the active view by this node's initiative is dialled, is sent a NEIGHBOR request
-- of low priority, and is reported, in this order; the priority is never high.
pub add_node_to_active_view-announced :
    (h : Host) (v : HyParView) (node : AddressablePeer)
    → node.peer_id ≢ v.local_node.peer_id
    → contains peer_key node.peer_id v.active ≡ false
    → (add_node_to_active_view h v node true).out_events
      ≡ v.out_events
        ++ dial_peer v node false
          ∷ notify v node.peer_id (Action.neighbor priority_low (to_record h v.local_node))
          ∷ NetworkAction.generate_event (EpisubEvent.peer_added node.peer_id)
          ∷ []
unfolding add_node_to_active_view announce
add_node_to_active_view-announced h v node other fresh =
    rw (beq_of_ne node.peer_id v.local_node.peer_id other, fresh, is_empty-snoc v.active node)
      (append_assoc v.out_events _ _)
