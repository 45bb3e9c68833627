-- ===== src/View.antt =====
-- src/network/episub/view.rs, HyParView: the membership protocol of one topic. `State` has the state and
-- the operations on one view; this file has the handlers of control messages and the poll.
mod State
pub mod Bounds
pub mod Eviction
pub mod Departure
pub mod Gossip
pub mod Mirror
mod Tests
pub mod History
pub mod Valid
pub mod Moves
pub mod Calls
pub use State.{HyParView, peer_key, emit, emit_all, drawn, notify, dial_peer}
unfoldable pub use State.{
  to_record, try_from, new, is_active, overconnected, starved, announce, add_node_to_active_view,
  trim_passive, add_node_to_passive_view, add_all_to_passive_view,
}
use irn.Base.{
  ℕ, ◌+◌, ◌-◌, Bool, true, false, not, ◌&&◌, ◌||◌, Option, none, some, List, [], ◌∷◌, ◌++◌, map,
  length, filter_map, leb, ltb, nat_eq, retain, zero, suc, Eq-ℕ, if◌then◌else◌,
}
use irn.Base.Keyed.{contains, remove, of_list, union, difference}
use irn.Config.{max_passive_view_size, active_walk_length, shuffle_max_size}
use irn.Host.{Host, sample_unit}
use irn.Rpc.{PeerId, AddressablePeer, PeerRecord, Action, NetworkAction, EpisubEvent, priority_high}

-- The slot of a random peer is freed; the peer is drawn from the passive view.
unfoldable pub free_up_active_slot : Host → HyParView → HyParView
free_up_active_slot h v =
    if overconnected v
    then elim (h.choose v.draws v.passive) [
      | none ↦ drawn v
      | some random ↦
          add_node_to_passive_view h
            (emit_all (record (drawn v) { active = remove peer_key random.peer_id v.active })
              (notify v random.peer_id (Action.disconnect true)
                ∷ NetworkAction.generate_event (EpisubEvent.peer_removed random.peer_id)
                ∷ []))
            random
    ]
    else v

unfoldable pub initiate_join : Host → HyParView → AddressablePeer → HyParView
initiate_join h v peer =
    emit v
      (notify v peer.peer_id (Action.join (active_walk_length v.config) (to_record h v.local_node)))

-- The members of the active view but two peers.
unfoldable pub others : HyParView → PeerId → PeerId → List AddressablePeer
others v a b = retain (λ n. not (nat_eq n.peer_id a) && not (nat_eq n.peer_id b)) v.active

-- The joiner enters the active view if there is room, and the passive view if there is none.
unfoldable pub welcome : Host → HyParView → AddressablePeer → HyParView
welcome h v peer =
    if not (overconnected v)
    then add_node_to_active_view h v peer true
    else add_node_to_passive_view h v peer

unfoldable pub forward_to_others : Host → HyParView → PeerId → AddressablePeer → ℕ → HyParView
forward_to_others h v sender peer ttl = emit_all v (
    map (λ n. notify v n.peer_id (Action.forward_join ttl (to_record h peer)))
      (others v peer.peer_id sender))

unfoldable pub inject_join : Host → HyParView → PeerId → AddressablePeer → ℕ → HyParView
inject_join h v sender peer ttl =
    if contains peer_key peer.peer_id v.active
    then v
    else forward_to_others h (welcome h v peer) sender peer ttl

unfoldable pub inject_forward_join :
    Host → HyParView → AddressablePeer → ℕ → PeerId → PeerId → HyParView
inject_forward_join h v peer ttl local_node sender =
    if nat_eq peer.peer_id local_node
    then v
    else let freed : HyParView =
        if nat_eq ttl 0 && not (is_active v peer.peer_id) then free_up_active_slot h v else v in
      let w : HyParView = welcome h freed peer in
      if nat_eq ttl 0 then w else forward_to_others h w sender peer (ttl - 1)

unfoldable pub inject_disconnect : Host → HyParView → PeerId → Bool → HyParView
inject_disconnect h v peer alive =
    let w : HyParView =
      if alive
      then add_all_to_passive_view h v (retain (λ p. nat_eq p.peer_id peer) v.active)
      else record v { passive = remove peer_key peer v.passive } in
    if contains peer_key peer w.active
    then record (emit w (NetworkAction.generate_event (EpisubEvent.peer_removed peer))) {
      active = remove peer_key peer w.active;
    }
    else w

unfoldable pub inject_neighbor : Host → HyParView → AddressablePeer → ℕ → HyParView
inject_neighbor h v peer priority =
    if is_active v peer.peer_id
    then v
    else if not (overconnected v)
    then add_node_to_active_view h v peer false
    else if nat_eq priority priority_high
    then add_node_to_active_view h (free_up_active_slot h v) peer false
    else inject_disconnect h v peer.peer_id true

unfoldable pub send_shuffle : Host → HyParView → PeerId → HyParView
send_shuffle h v peer = emit (drawn v) (
    notify v peer (
      Action.shuffle (active_walk_length v.config) (to_record h v.local_node) (
        map (to_record h)
          (h.choose_multiple v.draws (v.active ++ v.passive) (shuffle_max_size v.config)))))

unfoldable pub send_shuffle_reply :
    Host → HyParView → AddressablePeer → List AddressablePeer → HyParView
send_shuffle_reply h v origin nodes =
    let w : HyParView =
      if not (is_active v origin.peer_id) then emit v (dial_peer v origin true) else v in
    emit w (notify v origin.peer_id (Action.shuffle_reply (map (to_record h) nodes)))

-- A shuffle goes on to one random neighbour; with none left, its originator becomes a neighbour.
unfoldable pub forward_shuffle :
    Host → HyParView → PeerId → ℕ → List AddressablePeer → AddressablePeer → HyParView
forward_shuffle h v from ttl nodes origin = elim (h.choose v.draws (others v from origin.peer_id)) [
  | some random ↦ emit (drawn v) (
      notify v random.peer_id
        (Action.shuffle (ttl - 1) (to_record h origin) (map (to_record h) nodes)))
  | none ↦ add_node_to_active_view h (drawn v) origin true
]

-- The peers of a shuffle that this node does not know.
unfoldable pub unknown_peers : HyParView → List AddressablePeer → List AddressablePeer
unknown_peers v = retain (λ n.
    not (contains peer_key n.peer_id v.active)
    && (not (contains peer_key n.peer_id v.passive) && not (nat_eq n.peer_id v.local_node.peer_id)))

-- The reply to the originator, and the unknown peers of the shuffle in the passive view.
unfoldable pub merge_shuffle : Host → HyParView → List AddressablePeer → AddressablePeer → HyParView
merge_shuffle h v nodes origin =
    let deduped = of_list peer_key nodes in
    let known = difference peer_key deduped (union peer_key v.active v.passive) in
    let replied : HyParView =
      send_shuffle_reply h (drawn v) origin
        (h.choose_multiple v.draws known (shuffle_max_size v.config)) in
    add_all_to_passive_view h replied (unknown_peers replied deduped)

unfoldable pub inject_shuffle :
    Host → HyParView → PeerId → ℕ → List AddressablePeer → AddressablePeer → HyParView
inject_shuffle h v from ttl nodes origin =
    let merged : HyParView = merge_shuffle h v nodes origin in
    if nat_eq ttl 0 then merged else forward_shuffle h merged from ttl nodes origin

-- `while len > max { drain().next() }`: a drain that is dropped removes every element.
unfoldable pub drain_excess : ℕ → ℕ → List AddressablePeer → List AddressablePeer
drain_excess zero max xs = xs
drain_excess (suc fuel) max xs =
    let rest = drain_excess fuel max [] in if ltb max (length xs) then rest else xs

unfoldable pub inject_shuffle_reply : Host → HyParView → List PeerRecord → HyParView
inject_shuffle_reply h v nodes =
    let merged = union peer_key v.passive (of_list peer_key (filter_map (try_from h) nodes)) in
    record v {
      passive = drain_excess (suc (length merged)) (max_passive_view_size v.config) merged;
    }

unfoldable pub maybe_move_random_passive_to_active : Host → HyParView → HyParView
maybe_move_random_passive_to_active h v =
    if starved v
    then elim (h.choose v.draws v.passive) [
      | none ↦ drawn v
      | some random ↦
          add_node_to_active_view h
            (record (drawn v) { passive = remove peer_key random.peer_id v.passive }) random true
    ]
    else v

-- The periodic shuffle with a random neighbour.
unfoldable pub periodic_shuffle : Host → HyParView → ℕ → HyParView
periodic_shuffle h v now =
    if ltb v.config.shuffle_interval (now - v.last_shuffle)
    then (let sampled : HyParView =
          if leb (sample_unit - h.sample v.draws) v.config.shuffle_probability
          then elim (h.choose (v.draws + 1) v.active) [
            | none ↦ drawn (drawn v)
            | some random ↦ send_shuffle h (drawn (drawn v)) random.peer_id
          ]
          else drawn v in
        record sampled { last_shuffle = now })
    else v

unfoldable pub periodic_topup : Host → HyParView → ℕ → HyParView
periodic_topup h v now =
    if ltb v.config.tick_frequency (now - v.last_tick)
    then record (maybe_move_random_passive_to_active h v) { last_tick = now }
    else v

unfoldable pub pop_from : HyParView → List NetworkAction → Option NetworkAction × HyParView
pop_from v [] = (none, v)
pop_from v (a ∷ rest) = (some a, record v { out_events = rest })

-- `out_events.pop_front`: the event, if there is one, and the view without it.
unfoldable pub pop_event : HyParView → Option NetworkAction × HyParView
pop_event v = pop_from v v.out_events

-- One poll, at the time `now`.
unfoldable pub poll : Host → HyParView → ℕ → Option NetworkAction × HyParView
poll h v now = pop_event (periodic_topup h (periodic_shuffle h v now) now)
