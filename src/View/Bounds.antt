-- ===== src/View/Bounds.antt =====
-- The size of the active view: which handlers keep it within `max_active_view_size`, and which do not.
use irn.Base.{
  ℕ, ◌≤◌, ◌<◌, ◌≡◌, ◌≢◌, refl, ◌∙◌, Bool, true, false, not, ◌&&◌, List, [], ◌∷◌, length, nat_eq,
  ltb, retain, if_elim, if◌then◌else◌, Option-cases, inl, inr, Bool-cases, Eq-ℕ, arith, nat_eq_iff,
  length-retain-le, length-append,
}
use irn.Base.Keyed.{of_list, difference, union, contains, insert, remove}
use irn.Config.{shuffle_max_size, max_active_view_size, max_passive_view_size}
use irn.Host.{Host}
use irn.Rpc.{PeerId, AddressablePeer, NetworkAction, EpisubEvent, priority_high}
use irn.View.State.{
  HyParView, peer_key, emit, drawn, add_node_to_active_view, add_node_to_passive_view, trim_passive,
  add_all_to_passive_view, overconnected, is_active,
}
use irn.View.{
  free_up_active_slot, welcome, forward_to_others, inject_join, inject_forward_join,
  inject_disconnect, inject_neighbor, inject_shuffle, send_shuffle_reply, unknown_peers,
  merge_shuffle, inject_shuffle_reply, initiate_join,
}
use irn.View.Calls.{Call, handle}

-- The active view has at most as many members as the configuration allows.
abbrev pub IsWithin : HyParView → Type 0
IsWithin v = length v.active ≤ max_active_view_size v.config

-- The second view has the members and the limit of the first.
pub record SameActive (v w : HyParView) : Type 0 where
  pub members : w.active ≡ v.active
  pub limits : w.config ≡ v.config
  pub owner : w.local_node ≡ v.local_node

module _ {v : HyParView} where
  pub same : SameActive v v
  same = record { members = refl; limits = refl; owner = refl }

  pub same_trans : {u w : HyParView} → SameActive u v → SameActive v w → SameActive u w
  same_trans a b = record {
    members = b.members ∙ a.members;
    limits = b.limits ∙ a.limits;
    owner = b.owner ∙ a.owner;
  }

  IsWithin-of_same : {w : HyParView} → SameActive v w → IsWithin v → IsWithin w
  IsWithin-of_same s b = rw (s.members, s.limits) b

module _ (h : Host) where
  pub trim_passive-SameActive : (u v : HyParView) → SameActive u v → SameActive u (trim_passive h v)
  unfolding trim_passive
  trim_passive-SameActive u v s =
      if_elim (SameActive u) (ltb (max_passive_view_size v.config) (length v.passive))
        (λ _. elim (Option-cases (h.choose v.draws v.passive)) [
          | inl e ↦ rw e (record { members = s.members; limits = s.limits; owner = s.owner })
          | inr (r, e) ↦ rw e (record { members = s.members; limits = s.limits; owner = s.owner })
        ])
        (λ _. s)

  pub passivate-SameActive :
      (v : HyParView) (node : AddressablePeer) → SameActive v (add_node_to_passive_view h v node)
  unfolding add_node_to_passive_view
  passivate-SameActive v node =
      if_elim (SameActive v) (nat_eq node.peer_id v.local_node.peer_id) (λ _. same)
        λ _.
          trim_passive-SameActive v (record v { passive = insert peer_key node v.passive })
            (record { members = refl; limits = refl; owner = refl })

  pub add_all-SameActive :
      (ps : List AddressablePeer) (v : HyParView) → SameActive v (add_all_to_passive_view h v ps)
  unfolding add_all_to_passive_view
  add_all-SameActive [] v = same
  add_all-SameActive (p ∷ ps) v =
      same_trans (passivate-SameActive v p) (add_all-SameActive ps (add_node_to_passive_view h v p))

  activate-IsWithin :
      (v : HyParView) (node : AddressablePeer) (initiator : Bool)
      → length v.active < max_active_view_size v.config
      → IsWithin (add_node_to_active_view h v node initiator)
  unfolding add_node_to_active_view
  activate-IsWithin v node initiator b =
      if_elim IsWithin (nat_eq node.peer_id v.local_node.peer_id) (λ _. omega arith)
        λ other.
          if_elim IsWithin (contains peer_key node.peer_id v.active) (λ _. omega arith)
            λ fresh.
              let grown : length (insert peer_key node v.active) ≤ max_active_view_size v.config =
                ground (arith, length-append v.active (node ∷ [])) in
              let added = NetworkAction.generate_event (EpisubEvent.peer_added node.peer_id) in
              if_elim (λ u. IsWithin (emit u added)) initiator (λ _. grown) (λ _. grown)

  welcome-IsWithin :
      (v : HyParView) (peer : AddressablePeer) → IsWithin v → IsWithin (welcome h v peer)
  unfolding welcome overconnected
  welcome-IsWithin v peer b =
      if_elim IsWithin (not (overconnected v))
        (λ room. activate-IsWithin v peer true (ground arith))
        (λ _. IsWithin-of_same (passivate-SameActive v peer) b)

  free_up-IsWithin : (v : HyParView) → IsWithin v → IsWithin (free_up_active_slot h v)
  unfolding free_up_active_slot
  free_up-IsWithin v b =
      if_elim IsWithin (overconnected v)
        (λ _. elim (Option-cases (h.choose v.draws v.passive)) [
          | inl e ↦ rw e b
          | inr (r, e) ↦ rw e (
              IsWithin-of_same (passivate-SameActive _ r) (
                omega (
                  arith,
                  length-retain-le (λ (p : AddressablePeer). not (nat_eq p.peer_id r.peer_id))
                      v.active,
                  b,
                )))
        ])
        (λ _. b)

  inject_join-IsWithin :
      (v : HyParView) (sender : PeerId) (peer : AddressablePeer) (ttl : ℕ)
      → IsWithin v
      → IsWithin (inject_join h v sender peer ttl)
  unfolding inject_join forward_to_others
  inject_join-IsWithin v sender peer ttl b =
      if_elim IsWithin (contains peer_key peer.peer_id v.active) (λ _. b)
        (λ _. welcome-IsWithin v peer b)

  inject_forward_join-IsWithin :
      (v : HyParView) (peer : AddressablePeer) (ttl : ℕ) (local_node sender : PeerId)
      → IsWithin v
      → IsWithin (inject_forward_join h v peer ttl local_node sender)
  unfolding inject_forward_join forward_to_others
  inject_forward_join-IsWithin v peer ttl local_node sender b =
      if_elim IsWithin (nat_eq peer.peer_id local_node) (λ _. b)
        λ _.
          let freed : HyParView =
            if nat_eq ttl 0 && not (is_active v peer.peer_id) then free_up_active_slot h v else v in
          let f : IsWithin freed =
            if_elim IsWithin (nat_eq ttl 0 && not (is_active v peer.peer_id))
              (λ _. free_up-IsWithin v b) (λ _. b) in
          let g : IsWithin (welcome h freed peer) = welcome-IsWithin freed peer f in
          if_elim IsWithin (nat_eq ttl 0) (λ _. g) (λ _. g)

  inject_disconnect-IsWithin :
      (v : HyParView) (peer : PeerId) (alive : Bool)
      → IsWithin v
      → IsWithin (inject_disconnect h v peer alive)
  unfolding inject_disconnect
  inject_disconnect-IsWithin v peer alive b =
      let w : HyParView =
        if alive
        then add_all_to_passive_view h v (retain (λ p. nat_eq p.peer_id peer) v.active)
        else record v { passive = remove peer_key peer v.passive } in
      let r : IsWithin w =
        if_elim IsWithin alive
          (λ _.
            IsWithin-of_same (add_all-SameActive (retain (λ p. nat_eq p.peer_id peer) v.active) v)
              b)
          (λ _. b) in
      if_elim IsWithin (contains peer_key peer w.active)
        (λ _. omega (
          arith,
          length-retain-le (λ (p : AddressablePeer). not (nat_eq p.peer_id peer)) w.active,
          r,
        ))
        (λ _. r)

  inject_neighbor-IsWithin :
      (v : HyParView) (peer : AddressablePeer) (priority : ℕ)
      → priority ≢ priority_high
      → IsWithin v
      → IsWithin (inject_neighbor h v peer priority)
  unfolding inject_neighbor overconnected
  inject_neighbor-IsWithin v peer priority low b =
      if_elim IsWithin (is_active v peer.peer_id) (λ _. b)
        λ _.
          if_elim IsWithin (not (overconnected v))
            (λ room. activate-IsWithin v peer false (ground arith))
            λ _.
              if_elim IsWithin (nat_eq priority priority_high)
                (λ e. absurd (low ((nat_eq_iff priority priority_high).0 e)))
                (λ _. inject_disconnect-IsWithin v peer.peer_id true b)

  send_shuffle_reply-SameActive :
      (u v : HyParView) (origin : AddressablePeer) (nodes : List AddressablePeer)
      → SameActive u v
      → SameActive u (send_shuffle_reply h v origin nodes)
  unfolding send_shuffle_reply
  send_shuffle_reply-SameActive u v origin nodes s =
      elim (Bool-cases (is_active v origin.peer_id)) [
        | inl e ↦ rw e (record { members = s.members; limits = s.limits; owner = s.owner })
        | inr e ↦ rw e (record { members = s.members; limits = s.limits; owner = s.owner })
      ]

  pub merge_shuffle-SameActive :
      (v : HyParView) (nodes : List AddressablePeer) (origin : AddressablePeer)
      → SameActive v (merge_shuffle h v nodes origin)
  unfolding merge_shuffle
  merge_shuffle-SameActive v nodes origin =
      let deduped = of_list peer_key nodes in
      let known = difference peer_key deduped (union peer_key v.active v.passive) in
      let answer = h.choose_multiple v.draws known (shuffle_max_size v.config) in
      let replied = send_shuffle_reply h (drawn v) origin answer in
      same_trans
        (send_shuffle_reply-SameActive v (drawn v) origin answer
          (record { members = refl; limits = refl; owner = refl }))
        (add_all-SameActive (unknown_peers replied deduped) replied)

  inject_shuffle-IsWithin :
      (v : HyParView) (from : PeerId) (ttl : ℕ) (nodes : List AddressablePeer)
      (origin : AddressablePeer)
      → ttl ≡ 0
      → IsWithin v
      → IsWithin (inject_shuffle h v from ttl nodes origin)
  unfolding inject_shuffle
  inject_shuffle-IsWithin v from ttl nodes origin e b =
      if_elim IsWithin (nat_eq ttl 0)
        (λ _. IsWithin-of_same (merge_shuffle-SameActive v nodes origin) b)
        (λ d. absurd (ground arith))

-- The calls that never push the active view over its limit: all but a NEIGHBOR request of high
-- priority and a shuffle that still travels.
abbrev pub RespectsLimit : Call → Type 0
RespectsLimit (Call.neighbor peer priority) = priority ≢ priority_high
RespectsLimit (Call.shuffle from ttl nodes origin) = ttl ≡ 0
RespectsLimit _ = Unit

-- An active view within its limit stays within it under every control message but a NEIGHBOR request
-- of high priority and a shuffle with a positive ttl.
pub handle-IsWithin :
    (h : Host) (v : HyParView) (c : Call) → RespectsLimit c → IsWithin v → IsWithin (handle h v c)
unfolding handle initiate_join inject_shuffle_reply
handle-IsWithin h v (Call.join_to peer) r b = b
handle-IsWithin h v (Call.join sender peer ttl) r b = inject_join-IsWithin h v sender peer ttl b
handle-IsWithin h v (Call.forward_join peer ttl local_node sender) r b =
    inject_forward_join-IsWithin h v peer ttl local_node sender b
handle-IsWithin h v (Call.neighbor peer priority) r b =
    inject_neighbor-IsWithin h v peer priority r b
handle-IsWithin h v (Call.disconnect peer alive) r b = inject_disconnect-IsWithin h v peer alive b
handle-IsWithin h v (Call.shuffle from ttl nodes origin) r b =
    inject_shuffle-IsWithin h v from ttl nodes origin r b
handle-IsWithin h v (Call.shuffle_reply nodes) r b = b
