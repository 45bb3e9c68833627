-- ===== src/View/Mirror.antt =====
-- The membership events that a view emits, replayed by a listener, against its active view.
use irn.Base.{
  ◌≡◌, refl, ap, ◌∙◌, Bool, if_elim, nat_eq, ltb, length, map, List, [], ◌∷◌, ◌++◌, append_assoc,
  Eq-ℕ, Option-cases, inl, inr, All,
}
use irn.Base.Keyed.{contains, insert, remove, whole, insert-map, remove-map}
use irn.Config.{max_passive_view_size}
use irn.Host.{Host}
use irn.Rpc.{PeerId, AddressablePeer, NetworkAction, EpisubEvent}
use irn.View.Moves.{Move, Moves, IsQuiet}
use irn.View.{inject_shuffle_reply}
use irn.View.State.{
  HyParView, peer_key, emit, emit_all, announce, add_all_to_passive_view, add_node_to_active_view,
  add_node_to_passive_view, trim_passive,
}

-- What a listener that keeps the set of active peers does on an event.
abbrev pub replay : List PeerId → NetworkAction → List PeerId
replay s (NetworkAction.generate_event (EpisubEvent.peer_added p)) = insert whole p s
replay s (NetworkAction.generate_event (EpisubEvent.peer_removed p)) = remove whole p s
replay s _ = s

abbrev pub replay_all : List PeerId → List NetworkAction → List PeerId
replay_all s [] = s
replay_all s (a ∷ rest) = replay_all (replay s a) rest

-- A listener at `s` that still has the view's queued events to read ends at the active view.
abbrev pub IsMirrored : List PeerId → HyParView → Type 0
IsMirrored s v = replay_all s v.out_events ≡ map peer_key v.active

pub replay_all-append :
    (s : List PeerId) (xs ys : List NetworkAction)
    → replay_all s (xs ++ ys) ≡ replay_all (replay_all s xs) ys
replay_all-append s [] ys = refl
replay_all-append s (x ∷ xs) ys = replay_all-append (replay s x) xs ys

-- Appended events whose replay takes the old active view to the new one keep the mirror.
pub mirror_step :
    (s : List PeerId) (v w : HyParView) (actions : List NetworkAction)
    → w.out_events ≡ v.out_events ++ actions
    → replay_all (map peer_key v.active) actions ≡ map peer_key w.active
    → IsMirrored s v
    → IsMirrored s w
mirror_step s v w actions e r m =
    ap (replay_all s) e
    ∙ replay_all-append s v.out_events actions
    ∙ ap (λ t. replay_all t actions) m
    ∙ r

module _ (h : Host) (s : List PeerId) where
  pub add_node_to_active_view-IsMirrored :
      (v : HyParView) (node : AddressablePeer) (initiator : Bool)
      → IsMirrored s v
      → IsMirrored s (add_node_to_active_view h v node initiator)
  unfolding add_node_to_active_view announce
  add_node_to_active_view-IsMirrored v node initiator m =
      if_elim (IsMirrored s) (nat_eq node.peer_id v.local_node.peer_id) (λ _. m)
        λ _.
          if_elim (IsMirrored s) (contains peer_key node.peer_id v.active) (λ _. m)
            λ fresh.
              let w : HyParView = record v { active = insert peer_key node v.active } in
              let added = NetworkAction.generate_event (EpisubEvent.peer_added node.peer_id) in
              if_elim (λ u. IsMirrored s (emit u added)) initiator
                (λ _.
                  mirror_step s v (emit (emit_all w (announce h w node)) added)
                    (announce h w node ++ added ∷ []) (append_assoc v.out_events _ _)
                    (insert-map peer_key node v.active) m)
                (λ _.
                  mirror_step s v (emit w added) (added ∷ []) refl
                    (insert-map peer_key node v.active) m)

  pub add_node_to_passive_view-IsMirrored :
      (v : HyParView) (node : AddressablePeer)
      → IsMirrored s v
      → IsMirrored s (add_node_to_passive_view h v node)
  unfolding add_node_to_passive_view trim_passive
  add_node_to_passive_view-IsMirrored v node m =
      if_elim (IsMirrored s) (nat_eq node.peer_id v.local_node.peer_id) (λ _. m)
        λ _.
          let w : HyParView = record v { passive = insert peer_key node v.passive } in
          if_elim (IsMirrored s) (ltb (max_passive_view_size v.config) (length w.passive))
            (λ _. elim (Option-cases (h.choose v.draws w.passive)) [
              | inl e ↦ rw e m
              | inr (r, e) ↦ rw e m
            ])
            (λ _. m)

  pub add_all_to_passive_view-IsMirrored :
      (ps : List AddressablePeer) (v : HyParView)
      → IsMirrored s v
      → IsMirrored s (add_all_to_passive_view h v ps)
  unfolding add_all_to_passive_view
  add_all_to_passive_view-IsMirrored [] v m = m
  add_all_to_passive_view-IsMirrored (p ∷ ps) v m =
      add_all_to_passive_view-IsMirrored ps (add_node_to_passive_view h v p)
        (add_node_to_passive_view-IsMirrored v p m)

quiet-replay :
    (actions : List NetworkAction) (s : List PeerId)
    → All IsQuiet actions
    → replay_all s actions ≡ s
quiet-replay [] s q = refl
quiet-replay (NetworkAction.generate_event e ∷ rest) s q = absurd q.0
quiet-replay (NetworkAction.notify_handler p e ∷ rest) s q = quiet-replay rest s q.1
quiet-replay (NetworkAction.dial p a m t ∷ rest) s q = quiet-replay rest s q.1
quiet-replay (NetworkAction.close_connection p c ∷ rest) s q = quiet-replay rest s q.1

module _ (h : Host) (s : List PeerId) where
  Move-IsMirrored : {v w : HyParView} → Move h v w → IsMirrored s v → IsMirrored s w
  unfolding inject_shuffle_reply
  Move-IsMirrored {v} (Move.activate node initiator) m =
      add_node_to_active_view-IsMirrored h s v node initiator m
  Move-IsMirrored {v} (Move.passivate node) m = add_node_to_passive_view-IsMirrored h s v node m
  Move-IsMirrored {v} (Move.deactivate peer actions q) m =
      let removed = NetworkAction.generate_event (EpisubEvent.peer_removed peer) in
      mirror_step s v
        (record v {
          active = remove peer_key peer v.active;
          out_events = v.out_events ++ (actions ++ removed ∷ []);
        })
        (actions ++ removed ∷ []) refl
        (replay_all-append _ actions (removed ∷ [])
          ∙ ap (remove whole peer) (quiet-replay actions _ q)
          ∙ remove-map peer_key peer v.active)
        m
  Move-IsMirrored (Move.forget peer) m = m
  Move-IsMirrored (Move.absorb nodes) m = m
  Move-IsMirrored {v} (Move.say actions q) m =
      mirror_step s v (emit_all v actions) actions refl
        (quiet-replay actions (map peer_key v.active) q) m
  Move-IsMirrored (Move.tick d t u) m = m

  -- Whatever a handler does, its queued events tell the listener of it.
  pub Moves-IsMirrored : {v w : HyParView} → Moves h v w → IsMirrored s v → IsMirrored s w
  Moves-IsMirrored Moves.here m = m
  Moves-IsMirrored (Moves.next r st) m = Move-IsMirrored st (Moves-IsMirrored r m)
