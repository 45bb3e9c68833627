-- ===== src/View/Tests.antt =====
-- Runs of HyParView on small inputs, and the theorems at concrete views.
use irn.Base.{◌+◌, ◌≡◌, refl, true, false, List, [], ◌∷◌, ◌++◌, some, length, map, Eq-ℕ, arith}
use irn.Config.{max_active_view_size, max_passive_view_size, min_active_view_size, log2, log2_loop}
use irn.Rpc.{NetworkAction, EpisubEvent, Action, priority_low, priority_high}
use irn.Samples.{host, host-IsLawful, config, peer}
use irn.View.{
  HyParView, peer_key, new, to_record, try_from, is_active, overconnected, announce,
  add_node_to_active_view, dial_peer, notify, trim_passive, add_node_to_passive_view,
  add_all_to_passive_view, free_up_active_slot, others, welcome, forward_to_others, inject_join,
  inject_forward_join, inject_disconnect, inject_neighbor, inject_shuffle_reply, drain_excess,
}
use irn.View.Bounds
use irn.View.Calls.{Call, handle}
use irn.View.Departure
use irn.View.Eviction
use irn.View.Gossip
use irn.View.History
use irn.View.History.{Event, handles, polls, run, step}
use irn.View.Mirror.{IsMirrored}
use irn.View.Valid.{IsValid}

abbrev fresh_view : HyParView
fresh_view = record {
  config = config;
  topic = "t";
  local_node = peer 0;
  active = [];
  passive = [];
  last_tick = 0;
  last_shuffle = 0;
  out_events = [];
  draws = 0;
}

-- A view at its limit of two, with one passive peer.
abbrev full_view : HyParView
full_view = record fresh_view { active = peer 1 ∷ peer 2 ∷ []; passive = peer 3 ∷ [] }

program : Unit {0}
unfolding log2 log2_loop max_active_view_size min_active_view_size max_passive_view_size is_active
    overconnected announce add_node_to_active_view trim_passive add_node_to_passive_view
    add_all_to_passive_view free_up_active_slot others welcome forward_to_others inject_join
    inject_disconnect inject_neighbor inject_shuffle_reply drain_excess to_record try_from
program = tt

limit : max_active_view_size config ≡ 2
unfolding program
limit = refl

joined : map peer_key (inject_join host fresh_view 5 (peer 5) 2).active ≡ 5 ∷ []
unfolding program
joined = refl

-- The evicted peer is the passive one, and the active view grows to three.
overfull :
    map peer_key (inject_neighbor host full_view (peer 4) priority_high).active ≡ 1 ∷ 2 ∷ 4 ∷ []
unfolding program
overfull = refl

-- A reply that does not fit leaves nothing.
emptied :
    (inject_shuffle_reply host full_view
      (to_record host (peer 6) ∷ to_record host (peer 7) ∷ [])).passive
    ≡ []
unfolding program
emptied = refl

abbrev history : List Event
history =
    handles (Call.join 5 (peer 5) 2) ∷ polls 1 ∷ handles (Call.disconnect 5 true) ∷ polls 300 ∷ []

run-IsMirrored_example :
    IsMirrored
      (run host ([], new "t" config (peer 0) 0) history).0
      (run host ([], new "t" config (peer 0) 0) history).1
run-IsMirrored_example = History.run-IsMirrored host-IsLawful "t" config (peer 0) 0 history

run-IsValid_example : IsValid (run host ([], new "t" config (peer 0) 0) history).1
run-IsValid_example = History.run-IsValid host-IsLawful "t" config (peer 0) 0 history

handle-IsWithin_example : Bounds.IsWithin (handle host full_view (Call.join 4 (peer 4) 2))
unfolding program
handle-IsWithin_example =
    Bounds.handle-IsWithin host full_view (Call.join 4 (peer 4) 2) tt (omega arith)

apart : Eviction.AreDisjoint full_view
apart k e = ground arith

free_up_active_slot-SameActive_example :
    Bounds.SameActive full_view (free_up_active_slot host full_view)
free_up_active_slot-SameActive_example =
    Eviction.free_up_active_slot-SameActive host full_view host-IsLawful apart

inject_neighbor-overfull_example :
    length (inject_neighbor host full_view (peer 4) priority_high).active ≡ 2 + 1
unfolding program
inject_neighbor-overfull_example =
    Eviction.inject_neighbor-overfull host full_view (peer 4) host-IsLawful apart refl (omega arith)
      refl

inject_neighbor-refused_example : inject_neighbor host full_view (peer 4) priority_low ≡ full_view
unfolding program
inject_neighbor-refused_example =
    Eviction.inject_neighbor-refused host full_view (peer 4) priority_low (omega arith) refl refl

add_node_to_active_view-announced_example :
    (add_node_to_active_view host fresh_view (peer 5) true).out_events
    ≡ []
      ++ dial_peer fresh_view (peer 5) false
        ∷ notify fresh_view 5 (Action.neighbor priority_low (to_record host (peer 0)))
        ∷ NetworkAction.generate_event (EpisubEvent.peer_added 5)
        ∷ []
add_node_to_active_view-announced_example =
    Eviction.add_node_to_active_view-announced host fresh_view (peer 5) (omega arith) refl

inject_shuffle_reply-passive_example :
    (inject_shuffle_reply host full_view
      (to_record host (peer 6) ∷ to_record host (peer 7) ∷ [])).passive
    ≡ []
unfolding program
inject_shuffle_reply-passive_example =
    Departure.inject_shuffle_reply-passive host full_view
      (to_record host (peer 6) ∷ to_record host (peer 7) ∷ [])

inject_forward_join-sent_example :
    Gossip.sent_to 1 (inject_forward_join host full_view (peer 4) 3 0 2).out_events
    ≡ []
      ++ record { topic = "t"; action = some (Action.forward_join 2 (to_record host (peer 4))) }
        ∷ []
unfolding program
inject_forward_join-sent_example =
    Gossip.inject_forward_join-sent host full_view (peer 4) 2 0 2 1 (omega arith) (refl, (refl, tt))
