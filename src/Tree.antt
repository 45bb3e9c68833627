-- ===== src/Tree.antt =====
-- src/network/episub/tree.rs, PlumTree: the broadcast tree of one topic. A step that panics in the source
-- is `none`. All readings of the clock within one call are the same instant, and instants are counted
-- from an origin that lies before them by more than any configured window.
pub mod Inputs
mod Tests
pub mod Budget
pub mod Delivery
pub mod Links
pub mod Relay
pub mod Repair
pub mod Asking
pub mod Progress
pub mod Clock
pub mod Linking
use irn.Base.{
  ℕ, ◌+◌, ◌-◌, ◌*◌, ◌%◌, ◌^◌, String, Bool, true, false, not, ◌&&◌, Option, none, some, List, [],
  ◌∷◌, ◌++◌, map, filter_map, is_empty, retain, leb, ltb, nat_eq, if◌then◌else◌, Eq-ℕ,
}
use irn.Base.Keyed.{contains, insert, remove, of_list, whole}
use irn.Cache.{
  MessageRecord, MessageInfo, ExpiringCache, record_item, info_item, remove_older_than, iter_range,
}
use irn.Cache
use irn.Config.{Config}
use irn.Host.{Host}
use irn.Rpc.{PeerId, Bytes, Rpc, Action, MessageRef, NetworkAction, EpisubEvent}

pub record PlumTree : Type 0 where
  pub topic : String
  pub local_node : PeerId
  pub lazy : List PeerId
  pub eager : List PeerId
  pub last_tick : ℕ
  pub config : Config
  pub observed : ExpiringCache MessageInfo
  pub received : ExpiringCache MessageRecord
  pub out_events : List NetworkAction

unfoldable pub new : String → Config → PeerId → ℕ → PlumTree
new topic config local_node now = record {
  topic = topic;
  config = config;
  local_node = local_node;
  lazy = [];
  eager = [];
  last_tick = now;
  observed = Cache.new info_item;
  received = Cache.new record_item;
  out_events = [];
}

abbrev pub emit_all : PlumTree → List NetworkAction → PlumTree
emit_all t actions = record t { out_events = t.out_events ++ actions }

abbrev pub notify : PlumTree → Action → PeerId → NetworkAction
notify t action peer =
    NetworkAction.notify_handler peer (record { topic = t.topic; action = some action })

unfoldable pub inject_neighbor_up : PlumTree → PeerId → PlumTree
inject_neighbor_up t peer = record t { eager = insert whole peer t.eager }

unfoldable pub inject_neighbor_down : PlumTree → PeerId → PlumTree
inject_neighbor_down t peer = record t {
  eager = remove whole peer t.eager;
  lazy = remove whole peer t.lazy;
}

-- A message in the wire form (`From<MessageRecord> for rpc::Message`).
abbrev pub to_message : MessageRecord → Action
to_message m = Action.message m.id m.hop m.payload

unfoldable pub publish : PlumTree → ℕ → Bytes → ℕ → PlumTree
publish t id payload now = elim (Cache.get record_item t.received id) [
  | some msg ↦ t
  | none ↦ elim (Cache.get info_item t.observed id) [
    | some msg ↦ t
    | none ↦
        let message : MessageRecord = record {
          id = id;
          payload = payload;
          hop = 1;
          sender = t.local_node;
        } in
        record (emit_all t (map (notify t (to_message message)) t.eager)) {
          received = (Cache.insert record_item t.received (record message { hop = 0 }) now).0;
        }
  ]
]

unfoldable pub inject_ihave : PlumTree → PeerId → ℕ → ℕ → ℕ → PlumTree
inject_ihave t peer id hop now = record t {
  observed =
      (Cache.insert info_item t.observed (record { id = id; hop = hop; sender = peer }) now).0;
}

unfoldable pub inject_prune : PlumTree → PeerId → PlumTree
inject_prune t peer = record t {
  eager = remove whole peer t.eager;
  lazy = insert whole peer t.lazy;
}

-- The payload as it is delivered; it does not decompress if the sender did not compress it.
unfoldable pub delivered_payload : Host → Config → Bytes → Option Bytes
delivered_payload h c payload = if c.enable_compression then h.decode_all payload else some payload

-- What the first receipt of a message queues: its delivery, and its way on to the eager peers but
-- the sender, with a hop count that wraps at 32 bits.
unfoldable pub forward_message : PlumTree → PeerId → ℕ → ℕ → Bytes → Bytes → List NetworkAction
forward_message t peer id hop payload out =
    NetworkAction.generate_event (EpisubEvent.message_received t.topic id out)
    ∷ map (notify t (Action.message id ((hop + 1) % 2 ^ 32) payload))
        (retain (λ p. not (nat_eq p peer)) t.eager)

unfoldable pub prune_sender : PlumTree → PeerId → PlumTree
prune_sender t peer =
    if t.config.optimize_sender_tree && contains whole peer t.eager
    then emit_all (inject_prune t peer) (notify t Action.prune peer ∷ [])
    else t

unfoldable pub inject_message : Host → PlumTree → PeerId → ℕ → ℕ → Bytes → ℕ → Option PlumTree
inject_message h t peer id hop payload now =
    let inserted =
      Cache.insert record_item t.received
        (record { id = id; hop = hop; payload = payload; sender = peer }) now in
    let u : PlumTree = record t { received = inserted.0 } in
    if inserted.1
    then (elim (delivered_payload h t.config payload) [
      | none ↦ none
      | some out ↦ some (emit_all u (forward_message t peer id hop payload out))
    ])
    else some (prune_sender u peer)

unfoldable pub inject_graft : PlumTree → PeerId → List ℕ → PlumTree
inject_graft t peer ids =
    let u : PlumTree = record t {
      lazy = remove whole peer t.lazy;
      eager = insert whole peer t.eager;
    } in
    emit_all u
      (map (λ m. notify t (to_message m) peer) (filter_map (Cache.get record_item t.received) ids))

-- An IHAVE with the recent messages to every lazy peer, if there are any.
unfoldable pub publish_ihaves : Host → PlumTree → ℕ → Option PlumTree
publish_ihaves h t now =
    elim (iter_range record_item h t.received (now - t.config.lazy_push_window) now) [
      | none ↦ none
      | some recent ↦
          let refs : List MessageRef = map (λ m. record { id = m.id; hop = m.hop }) recent in
          some (
            if not (is_empty refs)
            then emit_all t (map (notify t (Action.ihave refs)) t.lazy)
            else t)
    ]

unfoldable pub prune_history : PlumTree → ℕ → PlumTree
prune_history t now =
    let cutoff = now - t.config.history_window in
    record t {
      observed = remove_older_than info_item t.observed cutoff;
      received = remove_older_than record_item t.received cutoff;
    }

-- The links to graft, each with the messages to ask for.
abbrev pub Grafts : Type 0
Grafts = List (PeerId × List ℕ)

-- The entry of the peer, with more messages to ask for; a vacant one is made.
unfoldable pub add_graft : PeerId → List ℕ → Grafts → Grafts
add_graft peer ids [] = (peer, ids) ∷ []
add_graft peer ids ((p, asked) ∷ rest) =
    if nat_eq p peer then (p, asked ++ ids) ∷ rest else (p, asked) ∷ add_graft peer ids rest

-- One announced message: a missing one is asked for; one that is here is not, but its sender is
-- grafted if it offers a much shorter path.
unfoldable pub consider : PlumTree → MessageInfo → Grafts → Grafts
consider t observed grafts = elim (Cache.get record_item t.received observed.id) [
  | some received ↦
      if leb t.config.hop_optimization_factor (received.hop - observed.hop)
        && not (nat_eq observed.hop 0)
      then add_graft observed.sender [] grafts
      else grafts
  | none ↦ add_graft observed.sender (observed.id ∷ []) grafts
]

unfoldable pub consider_all : PlumTree → List MessageInfo → Grafts → Grafts
consider_all t [] grafts = grafts
consider_all t (o ∷ rest) grafts = consider_all t rest (consider t o grafts)

unfoldable pub repair_tree : Host → PlumTree → ℕ → Option PlumTree
repair_tree h t now =
    elim (iter_range info_item h t.observed (now - t.config.lazy_push_window)
      (now - 2 * t.config.tick_frequency)) [
        | none ↦ none
        | some expected ↦
            let grafts = consider_all t (of_list (λ (m : MessageInfo). m.id) expected) [] in
            some
              (prune_history (emit_all t (map (λ g. notify t (Action.graft g.1) g.0) grafts)) now)
      ]

-- Periodic maintenance, at most once a tick.
unfoldable pub maintain : Host → PlumTree → ℕ → Option PlumTree
maintain h t now =
    if ltb t.config.tick_frequency (now - t.last_tick)
    then (elim (publish_ihaves h t now) [
      | none ↦ none
      | some u ↦ elim (repair_tree h u now) [
        | none ↦ none
        | some w ↦ some (record w { last_tick = now })
      ]
    ])
    else some t

unfoldable pub pop_from : PlumTree → List NetworkAction → Option NetworkAction × PlumTree
pop_from t [] = (none, t)
pop_from t (a ∷ rest) = (some a, record t { out_events = rest })

-- One poll, at the time `now`.
unfoldable pub poll : Host → PlumTree → ℕ → Option (Option NetworkAction × PlumTree)
poll h t now = elim (maintain h t now) [ none ↦ none | some u ↦ some (pop_from u u.out_events) ]
