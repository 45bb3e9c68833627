-- ===== src/View/State.antt =====
-- src/network/episub/view.rs: the state of a HyParView, its queries, the wire form of a peer, and the
-- two operations that add a peer to a view. `draws` counts the reads of the thread's random
-- generator; it stands for the generator's own state.
use irn.Base.{
  ℕ, ◌+◌, String, Bool, false, Option, none, some, List, [], ◌∷◌, ◌++◌, map, length, filter_map,
  is_empty, leb, ltb, nat_eq, Eq-ℕ, if◌then◌else◌,
}
use irn.Base.Keyed.{contains, insert, remove, of_list, whole}
use irn.Episub.Address.{Eq-Multiaddr}
use irn.Config.{Config, max_active_view_size, min_active_view_size, max_passive_view_size}
use irn.Host.{Host}
use irn.Rpc.{
  PeerId, AddressablePeer, PeerRecord, Action, NetworkAction, EpisubEvent, priority_low,
  priority_high,
}

-- Two peers are equal if their identities are: a set of peers is keyed by them.
abbrev pub peer_key : AddressablePeer → PeerId
peer_key a = a.peer_id

-- The wire form of a peer, and back; an unreadable identity is an error, an unreadable address is
-- left out.
unfoldable pub to_record : Host → AddressablePeer → PeerRecord
to_record h a = record {
  peer_id = h.peer_id_to_bytes a.peer_id;
  addresses = map h.multiaddr_to_vec a.addresses;
}

unfoldable pub try_from : Host → PeerRecord → Option AddressablePeer
try_from h r = elim (h.peer_id_from_bytes r.peer_id) [
  | none ↦ none
  | some p ↦ some (record {
    peer_id = p;
    addresses = of_list whole (filter_map h.multiaddr_try_from r.addresses);
  })
]

pub record HyParView : Type 0 where
  pub config : Config
  pub topic : String
  pub local_node : AddressablePeer
  pub active : List AddressablePeer
  pub passive : List AddressablePeer
  pub last_tick : ℕ
  pub last_shuffle : ℕ
  pub out_events : List NetworkAction
  pub draws : ℕ

unfoldable pub new : String → Config → AddressablePeer → ℕ → HyParView
new topic config local now = record {
  config = config;
  topic = topic;
  local_node = local;
  active = [];
  passive = [];
  last_tick = now;
  last_shuffle = now;
  out_events = [];
  draws = 0;
}

unfoldable pub is_active : HyParView → PeerId → Bool
is_active v peer = contains peer_key peer v.active

unfoldable pub overconnected : HyParView → Bool
overconnected v = leb (max_active_view_size v.config) (length v.active)

unfoldable pub starved : HyParView → Bool
starved v = ltb (length v.active) (min_active_view_size v.config)

-- `out_events.push_back`.
abbrev pub emit : HyParView → NetworkAction → HyParView
emit v a = record v { out_events = v.out_events ++ a ∷ [] }

abbrev pub emit_all : HyParView → List NetworkAction → HyParView
emit_all v actions = record v { out_events = v.out_events ++ actions }

-- The generator has been read once.
abbrev pub drawn : HyParView → HyParView
drawn v = record v { draws = v.draws + 1 }

-- A message on this view's topic.
abbrev pub notify : HyParView → PeerId → Action → NetworkAction
notify v peer action =
    NetworkAction.notify_handler peer (record { topic = v.topic; action = some action })

-- `Dial` with a handler that is temporary or not.
abbrev pub dial_peer : HyParView → AddressablePeer → Bool → NetworkAction
dial_peer v node temporary =
    NetworkAction.dial node.peer_id node.addresses v.config.max_transmit_size temporary

-- What an initiator sends to a peer that has just entered the active view.
unfoldable pub announce : Host → HyParView → AddressablePeer → List NetworkAction
announce h v node =
    dial_peer v node false
    ∷ notify v node.peer_id (
        Action.neighbor (if is_empty v.active then priority_high else priority_low)
          (to_record h v.local_node))
    ∷ []

unfoldable pub add_node_to_active_view : Host → HyParView → AddressablePeer → Bool → HyParView
add_node_to_active_view h v node initiator =
    if nat_eq node.peer_id v.local_node.peer_id
    then v
    else if contains peer_key node.peer_id v.active
    then v
    else let w : HyParView = record v { active = insert peer_key node v.active } in
      let w' : HyParView = if initiator then emit_all w (announce h w node) else w in
      emit w' (NetworkAction.generate_event (EpisubEvent.peer_added node.peer_id))

-- A full passive view loses a random member, which may be the one just added.
unfoldable pub trim_passive : Host → HyParView → HyParView
trim_passive h v =
    if ltb (max_passive_view_size v.config) (length v.passive)
    then elim (h.choose v.draws v.passive) [
      | none ↦ drawn v
      | some random ↦ record (drawn v) { passive = remove peer_key random.peer_id v.passive }
    ]
    else v

unfoldable pub add_node_to_passive_view : Host → HyParView → AddressablePeer → HyParView
add_node_to_passive_view h v node =
    if nat_eq node.peer_id v.local_node.peer_id
    then v
    else trim_passive h (record v { passive = insert peer_key node v.passive })

-- One peer after another, in the order of the sequence.
unfoldable pub add_all_to_passive_view : Host → HyParView → List AddressablePeer → HyParView
add_all_to_passive_view h v [] = v
add_all_to_passive_view h v (p ∷ ps) = add_all_to_passive_view h (add_node_to_passive_view h v p) ps
