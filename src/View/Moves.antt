-- ===== src/View/Moves.antt =====
-- Each handler of a HyParView is a sequence of a few kinds of move. What every move keeps, every
-- handler keeps.
use irn.Base.{
  ℕ, ◌+◌, ◌-◌, inl, inr, Bool, true, false, not, ◌&&◌, List, [], ◌∷◌, ◌++◌, map, retain, nat_eq,
  ltb, leb, if_elim, if◌then◌else◌, Option-cases, Eq-ℕ, All,
}
use irn.Base.Keyed.{contains, remove, of_list, union, difference}
use irn.Config.{shuffle_max_size}
use irn.Host.{Host, sample_unit}
use irn.Rpc.{PeerId, AddressablePeer, PeerRecord, Action, NetworkAction, EpisubEvent, priority_high}
use irn.View.Calls.{Call, handle}
use irn.View.{
  HyParView, peer_key, emit, emit_all, drawn, notify, dial_peer, overconnected, is_active, starved,
  add_node_to_active_view, add_node_to_passive_view, add_all_to_passive_view, free_up_active_slot,
  initiate_join, others, welcome, forward_to_others, inject_join, inject_forward_join,
  inject_disconnect, inject_neighbor, send_shuffle, send_shuffle_reply, forward_shuffle,
  unknown_peers, merge_shuffle, inject_shuffle, inject_shuffle_reply,
  maybe_move_random_passive_to_active, periodic_shuffle, periodic_topup,
}

-- A message or a dial: an action that says nothing of the active view.
abbrev pub IsQuiet : NetworkAction → Type 0
IsQuiet (NetworkAction.generate_event e) = ⊥
IsQuiet _ = Unit

pub data Move (h : Host) (v : HyParView) : HyParView → Type 0 where
  activate :
      (node : AddressablePeer) (initiator : Bool)
      → Move h v (add_node_to_active_view h v node initiator)
  passivate : (node : AddressablePeer) → Move h v (add_node_to_passive_view h v node)
  deactivate :
      (peer : PeerId) (actions : List NetworkAction)
      → All IsQuiet actions
      → Move h v (record v {
        active = remove peer_key peer v.active;
        out_events =
            v.out_events
            ++ (actions ++ NetworkAction.generate_event (EpisubEvent.peer_removed peer) ∷ []);
      })
  forget : (peer : PeerId) → Move h v (record v { passive = remove peer_key peer v.passive })
  absorb : (nodes : List PeerRecord) → Move h v (inject_shuffle_reply h v nodes)
  say : (actions : List NetworkAction) → All IsQuiet actions → Move h v (emit_all v actions)
  tick :
      (draws last_tick last_shuffle : ℕ)
      → Move h v (record v { draws = draws; last_tick = last_tick; last_shuffle = last_shuffle })

pub data Moves (h : Host) (v : HyParView) : HyParView → Type 0 where
  here : Moves h v v
  next : {u w : HyParView} → Moves h v u → Move h u w → Moves h v w

All-map {ℓ} :
    {A : Type ℓ} (f : A → NetworkAction) (xs : List A)
    → ((x : A) → IsQuiet (f x))
    → All IsQuiet (map f xs)
All-map f [] q = tt
All-map f (x ∷ xs) q = (q x, All-map f xs q)

module _ (h : Host) where
  one : {v w : HyParView} → Move h v w → Moves h v w
  one m = next here m

  then-Moves : {u v w : HyParView} → Moves h u v → Moves h v w → Moves h u w
  then-Moves r here = r
  then-Moves r (next s m) = next (then-Moves r s) m

  draw : (v : HyParView) → Move h v (drawn v)
  draw v = tick (v.draws + 1) v.last_tick v.last_shuffle

  add_all-Moves :
      (ps : List AddressablePeer) (v : HyParView) → Moves h v (add_all_to_passive_view h v ps)
  unfolding add_all_to_passive_view
  add_all-Moves [] v = here
  add_all-Moves (p ∷ ps) v =
      then-Moves (one (passivate p)) (add_all-Moves ps (add_node_to_passive_view h v p))

  free_up_active_slot-Moves : (v : HyParView) → Moves h v (free_up_active_slot h v)
  unfolding free_up_active_slot
  free_up_active_slot-Moves v =
      if_elim (Moves h v) (overconnected v)
        (λ _. elim (Option-cases (h.choose v.draws v.passive)) [
          | inl e ↦ rw e (one (draw v))
          | inr (r, e) ↦ rw e (
              next
                (next (next here (draw v)) (
                  deactivate r.peer_id (notify v r.peer_id (Action.disconnect true) ∷ []) (tt, tt)))
                (passivate r))
        ])
        (λ _. here)

  welcome-Moves : (v : HyParView) (peer : AddressablePeer) → Moves h v (welcome h v peer)
  unfolding welcome
  welcome-Moves v peer =
      if_elim (Moves h v) (not (overconnected v)) (λ _. one (activate peer true))
        (λ _. one (passivate peer))

  forward-Moves :
      (v : HyParView) (sender : PeerId) (peer : AddressablePeer) (ttl : ℕ)
      → Moves h v (forward_to_others h v sender peer ttl)
  unfolding forward_to_others
  forward-Moves v sender peer ttl = one (say _ (All-map _ (others v peer.peer_id sender) (λ n. tt)))

  pub inject_join-Moves :
      (v : HyParView) (sender : PeerId) (peer : AddressablePeer) (ttl : ℕ)
      → Moves h v (inject_join h v sender peer ttl)
  unfolding inject_join
  inject_join-Moves v sender peer ttl =
      if_elim (Moves h v) (contains peer_key peer.peer_id v.active) (λ _. here)
        (λ _. then-Moves (welcome-Moves v peer) (forward-Moves (welcome h v peer) sender peer ttl))

  pub inject_forward_join-Moves :
      (v : HyParView) (peer : AddressablePeer) (ttl : ℕ) (local_node sender : PeerId)
      → Moves h v (inject_forward_join h v peer ttl local_node sender)
  unfolding inject_forward_join
  inject_forward_join-Moves v peer ttl local_node sender =
      if_elim (Moves h v) (nat_eq peer.peer_id local_node) (λ _. here)
        λ _.
          let freed : HyParView =
            if nat_eq ttl 0 && not (is_active v peer.peer_id) then free_up_active_slot h v else v in
          let r : Moves h v freed =
            if_elim (Moves h v) (nat_eq ttl 0 && not (is_active v peer.peer_id))
              (λ _. free_up_active_slot-Moves v) (λ _. here) in
          let s : Moves h v (welcome h freed peer) = then-Moves r (welcome-Moves freed peer) in
          if_elim (Moves h v) (nat_eq ttl 0) (λ _. s)
            (λ _. then-Moves s (forward-Moves (welcome h freed peer) sender peer (ttl - 1)))

  pub inject_disconnect-Moves :
      (v : HyParView) (peer : PeerId) (alive : Bool) → Moves h v (inject_disconnect h v peer alive)
  unfolding inject_disconnect
  inject_disconnect-Moves v peer alive =
      let w : HyParView =
        if alive
        then add_all_to_passive_view h v (retain (λ p. nat_eq p.peer_id peer) v.active)
        else record v { passive = remove peer_key peer v.passive } in
      let r : Moves h v w =
        if_elim (Moves h v) alive
          (λ _. add_all-Moves (retain (λ p. nat_eq p.peer_id peer) v.active) v)
          (λ _. one (forget peer)) in
      if_elim (Moves h v) (contains peer_key peer w.active) (λ _. next r (deactivate peer [] tt))
        (λ _. r)

  pub inject_neighbor-Moves :
      (v : HyParView) (peer : AddressablePeer) (priority : ℕ)
      → Moves h v (inject_neighbor h v peer priority)
  unfolding inject_neighbor
  inject_neighbor-Moves v peer priority =
      if_elim (Moves h v) (is_active v peer.peer_id) (λ _. here)
        λ _.
          if_elim (Moves h v) (not (overconnected v)) (λ _. one (activate peer false))
            λ _.
              if_elim (Moves h v) (nat_eq priority priority_high)
                (λ _. next (free_up_active_slot-Moves v) (activate peer false))
                (λ _. inject_disconnect-Moves v peer.peer_id true)

  send_shuffle_reply-Moves :
      (v : HyParView) (origin : AddressablePeer) (nodes : List AddressablePeer)
      → Moves h v (send_shuffle_reply h v origin nodes)
  unfolding send_shuffle_reply
  send_shuffle_reply-Moves v origin nodes =
      let w : HyParView =
        if not (is_active v origin.peer_id) then emit v (dial_peer v origin true) else v in
      let r : Moves h v w =
        if_elim (Moves h v) (not (is_active v origin.peer_id))
          (λ _. one (say (dial_peer v origin true ∷ []) (tt, tt))) (λ _. here) in
      next r (say (_ ∷ []) (tt, tt))

  forward_shuffle-Moves :
      (v : HyParView) (from : PeerId) (ttl : ℕ) (nodes : List AddressablePeer)
      (origin : AddressablePeer)
      → Moves h v (forward_shuffle h v from ttl nodes origin)
  unfolding forward_shuffle
  forward_shuffle-Moves v from ttl nodes origin =
      elim (Option-cases (h.choose v.draws (others v from origin.peer_id))) [
        | inl e ↦ rw (e, forward_shuffle) (next (one (draw v)) (activate origin true))
        | inr (r, e) ↦ rw (e, forward_shuffle) (next (one (draw v)) (say (_ ∷ []) (tt, tt)))
      ]

  merge_shuffle-Moves :
      (v : HyParView) (nodes : List AddressablePeer) (origin : AddressablePeer)
      → Moves h v (merge_shuffle h v nodes origin)
  unfolding merge_shuffle
  merge_shuffle-Moves v nodes origin =
      let deduped = of_list peer_key nodes in
      let known = difference peer_key deduped (union peer_key v.active v.passive) in
      let answer = h.choose_multiple v.draws known (shuffle_max_size v.config) in
      let replied = send_shuffle_reply h (drawn v) origin answer in
      then-Moves (then-Moves (one (draw v)) (send_shuffle_reply-Moves (drawn v) origin answer))
        (add_all-Moves (unknown_peers replied deduped) replied)

  inject_shuffle-Moves :
      (v : HyParView) (from : PeerId) (ttl : ℕ) (nodes : List AddressablePeer)
      (origin : AddressablePeer)
      → Moves h v (inject_shuffle h v from ttl nodes origin)
  unfolding inject_shuffle
  inject_shuffle-Moves v from ttl nodes origin =
      let merged = merge_shuffle h v nodes origin in
      let r = merge_shuffle-Moves v nodes origin in
      if_elim (Moves h v) (nat_eq ttl 0) (λ _. r)
        (λ _. then-Moves r (forward_shuffle-Moves merged from ttl nodes origin))

  pub initiate_join-Moves :
      (v : HyParView) (peer : AddressablePeer) → Moves h v (initiate_join h v peer)
  unfolding initiate_join
  initiate_join-Moves v peer = one (say (_ ∷ []) (tt, tt))

  maybe_move-Moves : (v : HyParView) → Moves h v (maybe_move_random_passive_to_active h v)
  unfolding maybe_move_random_passive_to_active
  maybe_move-Moves v =
      if_elim (Moves h v) (starved v)
        (λ _. elim (Option-cases (h.choose v.draws v.passive)) [
          | inl e ↦ rw e (one (draw v))
          | inr (r, e) ↦ rw e (next (next (one (draw v)) (forget r.peer_id)) (activate r true))
        ])
        (λ _. here)

  send_shuffle-Moves : (v : HyParView) (peer : PeerId) → Moves h v (send_shuffle h v peer)
  unfolding send_shuffle
  send_shuffle-Moves v peer = next (one (draw v)) (say (_ ∷ []) (tt, tt))

  pub periodic_shuffle-Moves : (v : HyParView) (now : ℕ) → Moves h v (periodic_shuffle h v now)
  unfolding periodic_shuffle
  periodic_shuffle-Moves v now =
      if_elim (Moves h v) (ltb v.config.shuffle_interval (now - v.last_shuffle))
        (λ _.
          if_elim (λ u. Moves h v (record u { last_shuffle = now }))
            (leb (sample_unit - h.sample v.draws) v.config.shuffle_probability)
            (λ _. elim (Option-cases (h.choose (v.draws + 1) v.active)) [
              | inl e ↦ rw e (one (tick (v.draws + 1 + 1) v.last_tick now))
              | inr (r, e) ↦ rw e (
                  next
                    (then-Moves (next (one (draw v)) (draw (drawn v)))
                      (send_shuffle-Moves (drawn (drawn v)) r.peer_id))
                    (tick _ _ now))
            ])
            (λ _. one (tick (v.draws + 1) v.last_tick now)))
        (λ _. here)

  pub periodic_topup-Moves : (v : HyParView) (now : ℕ) → Moves h v (periodic_topup h v now)
  unfolding periodic_topup
  periodic_topup-Moves v now =
      if_elim (Moves h v) (ltb v.config.tick_frequency (now - v.last_tick))
        (λ _. next (maybe_move-Moves v) (tick _ now _)) (λ _. here)

  -- Every handler is a sequence of moves.
  pub handle-Moves : (v : HyParView) (c : Call) → Moves h v (handle h v c)
  unfolding handle
  handle-Moves v (Call.join_to peer) = initiate_join-Moves v peer
  handle-Moves v (Call.join sender peer ttl) = inject_join-Moves v sender peer ttl
  handle-Moves v (Call.forward_join peer ttl local_node sender) =
      inject_forward_join-Moves v peer ttl local_node sender
  handle-Moves v (Call.neighbor peer priority) = inject_neighbor-Moves v peer priority
  handle-Moves v (Call.disconnect peer alive) = inject_disconnect-Moves v peer alive
  handle-Moves v (Call.shuffle from ttl nodes origin) = inject_shuffle-Moves v from ttl nodes origin
  handle-Moves v (Call.shuffle_reply nodes) = one (absorb nodes)

  -- So is what a poll does before it hands out an event.
  pub periodic-Moves :
      (v : HyParView) (now : ℕ) → Moves h v (periodic_topup h (periodic_shuffle h v now) now)
  periodic-Moves v now =
      then-Moves (periodic_shuffle-Moves v now)
        (periodic_topup-Moves (periodic_shuffle h v now) now)
