-- ===== src/View/History.antt =====
-- Histories of a view: control messages and polls in any order, from `HyParView::new` on. The
-- listener is what TopicMesh::poll (src/network/episub/topic.rs) tells of members coming and going.
use irn.Base.{ℕ, ◌≡◌, refl, String, Option, none, some, List, [], ◌∷◌, map, Eq-ℕ, ◌∙◌, ap, arith}
use irn.Config.{Config}
use irn.Host.{Host, IsLawful}
use irn.Rpc.{PeerId, AddressablePeer, NetworkAction}
use irn.View.{HyParView, peer_key, new, poll, pop_event, pop_from, periodic_shuffle, periodic_topup}
use irn.View.Calls.{Call, handle}
use irn.View.Mirror.{replay, replay_all, IsMirrored, Moves-IsMirrored}
use irn.View.Moves.{handle-Moves, periodic-Moves}
use irn.View.Valid.{IsValid, Moves-IsValid}

pub data Event : Type 0 where
  handles : Call → Event
  polls : (now : ℕ) → Event

abbrev pub listen : List PeerId → Option NetworkAction → List PeerId
listen s none = s
listen s (some a) = replay s a

-- The listener's members beside the view.
unfoldable pub step : Host → List PeerId × HyParView → Event → List PeerId × HyParView
step h (s, v) (handles c) = (s, handle h v c)
step h (s, v) (polls now) = (listen s (poll h v now).0, (poll h v now).1)

unfoldable pub run : Host → List PeerId × HyParView → List Event → List PeerId × HyParView
unfolding step
run h st [] = st
run h st (e ∷ rest) = run h (step h st e) rest

pop_from-IsMirrored :
    (s : List PeerId) (v : HyParView) (actions : List NetworkAction)
    → replay_all s actions ≡ map peer_key v.active
    → v.out_events ≡ actions
    → IsMirrored (listen s (pop_from v actions).0) (pop_from v actions).1
unfolding pop_from
pop_from-IsMirrored s v [] m e = ap (replay_all s) e ∙ m
pop_from-IsMirrored s v (a ∷ rest) m e = m

-- A listener that reads what a poll hands out keeps up with the view.
pub poll-IsMirrored :
    (h : Host) (s : List PeerId) (v : HyParView) (now : ℕ)
    → IsMirrored s v
    → IsMirrored (listen s (poll h v now).0) (poll h v now).1
unfolding poll pop_event
poll-IsMirrored h s v now m =
    let w = periodic_topup h (periodic_shuffle h v now) now in
    pop_from-IsMirrored s w w.out_events (Moves-IsMirrored h s (periodic-Moves h v now) m) refl

pop_from-IsValid :
    (v : HyParView) (actions : List NetworkAction) → IsValid v → IsValid (pop_from v actions).1
unfolding pop_from
pop_from-IsValid v [] i = i
pop_from-IsValid v (a ∷ rest) i = record {
  active_distinct = i.active_distinct;
  passive_distinct = i.passive_distinct;
  no_self = i.no_self;
  passive_bound = i.passive_bound;
}

new-IsValid :
    (topic : String) (c : Config) (local : AddressablePeer) (now : ℕ)
    → IsValid (new topic c local now)
unfolding new
new-IsValid topic c local now = record {
  active_distinct = tt;
  passive_distinct = tt;
  no_self = refl;
  passive_bound = omega arith;
}

abbrev IsSound : List PeerId × HyParView → Type 0
IsSound st = IsMirrored st.0 st.1 × IsValid st.1

module _ {h : Host} (laws : IsLawful h) where
  poll-IsSound :
      (s : List PeerId) (v : HyParView) (now : ℕ)
      → IsSound (s, v)
      → IsSound (listen s (poll h v now).0, (poll h v now).1)
  unfolding poll pop_event
  poll-IsSound s v now (m, i) =
      let w = periodic_topup h (periodic_shuffle h v now) now in
      let r = periodic-Moves h v now in
      (poll-IsMirrored h s v now m, pop_from-IsValid w w.out_events (Moves-IsValid laws r i))

  step-IsSound :
      (s : List PeerId) (v : HyParView) (e : Event) → IsSound (s, v) → IsSound (step h (s, v) e)
  unfolding step
  step-IsSound s v (handles c) (m, i) =
      (Moves-IsMirrored h s (handle-Moves h v c) m, Moves-IsValid laws (handle-Moves h v c) i)
  step-IsSound s v (polls now) g = poll-IsSound s v now g

  run-IsSound :
      (events : List Event) (st : List PeerId × HyParView) → IsSound st → IsSound (run h st events)
  unfolding run
  run-IsSound [] st g = g
  run-IsSound (e ∷ rest) (s, v) g = run-IsSound rest (step h (s, v) e) (step-IsSound s v e g)

  module _ (topic : String) (c : Config) (local : AddressablePeer) (now : ℕ)
      (events : List Event) where
    -- After any history of control messages and polls of a new view, a listener that follows the
    -- membership events handed out so far, and then reads those still queued, holds exactly the
    -- peers of the active view, in the same order.
    pub run-IsMirrored :
        IsMirrored
          (run h ([], new topic c local now) events).0
          (run h ([], new topic c local now) events).1
    unfolding new
    run-IsMirrored = (run-IsSound events _ (refl, new-IsValid topic c local now)).0

    -- After any history of control messages and polls of a new view, both views are free of
    -- duplicates, the node is not in its own active view, and the passive view is within its limit.
    pub run-IsValid : IsValid (run h ([], new topic c local now) events).1
    unfolding new
    run-IsValid =
        (run-IsSound events ([], new topic c local now) (refl, new-IsValid topic c local now)).1
