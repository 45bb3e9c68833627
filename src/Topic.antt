-- ===== src/Topic.antt =====
-- src/network/episub/topic.rs, TopicMesh: one topic's view of the network, a HyParView and a PlumTree.
-- The view's membership events reach the tree when they are polled. A call that panics in the source
-- is `panicked`, and a poll that does is `none`.
pub mod Calls
pub mod Routing
pub mod Links
pub mod Progress
pub mod Clock
mod Tests
use irn.Base.{ℕ, String, Bool, Option, none, some, List, [], ◌∷◌, filter_map, nat_eq, if◌then◌else◌}
use irn.Config.{Config}
use irn.Host.{Host}
use irn.Rpc.{PeerId, Bytes, AddressablePeer, MessageRef, Action, Rpc, EpisubEvent, NetworkAction}
use irn.Tree
use irn.Tree.{PlumTree}
use irn.View
use irn.View.{HyParView, try_from}

pub data RpcError : Type 0 where
  invalid_peer_id : RpcError
  impersonated_peer : (peer claimed : PeerId) → RpcError

pub record TopicMesh : Type 0 where
  pub tree : PlumTree
  pub nodes : HyParView
  pub local_node : AddressablePeer
  pub out_events : List NetworkAction

-- `Result<(), RpcError>` with the mesh after the call.
pub data Outcome : Type 0 where
  ingested : TopicMesh → Outcome
  rejected : RpcError → TopicMesh → Outcome
  panicked : Outcome

unfoldable pub new : String → Config → AddressablePeer → ℕ → TopicMesh
new topic config local now = record {
  tree = Tree.new topic config local.peer_id now;
  nodes = View.new topic config local now;
  local_node = local;
  out_events = [];
}

-- The mesh with another view, and with another tree.
abbrev pub with_nodes : TopicMesh → HyParView → TopicMesh
with_nodes m v = record m { nodes = v }

abbrev pub with_tree : TopicMesh → PlumTree → TopicMesh
with_tree m t = record m { tree = t }

unfoldable pub disconnected : Host → TopicMesh → PeerId → Bool → TopicMesh
disconnected h m peer alive = with_nodes m (View.inject_disconnect h m.nodes peer alive)

unfoldable pub initiate_join : Host → TopicMesh → AddressablePeer → TopicMesh
initiate_join h m peer = with_nodes m (View.initiate_join h m.nodes peer)

unfoldable pub publish : TopicMesh → ℕ → Bytes → ℕ → TopicMesh
publish m id payload now = with_tree m (Tree.publish m.tree id payload now)

-- The entries of an IHAVE, one after another.
unfoldable pub inject_ihaves : PlumTree → PeerId → List MessageRef → ℕ → PlumTree
inject_ihaves t peer [] now = t
inject_ihaves t peer (m ∷ rest) now =
    inject_ihaves (Tree.inject_ihave t peer m.id m.hop now) peer rest now

unfoldable pub inject_action : Host → TopicMesh → PeerId → Action → ℕ → Outcome
inject_action h m from (Action.join ttl record_) now = elim (try_from h record_) [
  | none ↦ Outcome.rejected RpcError.invalid_peer_id m
  | some peer ↦ Outcome.ingested (with_nodes m (View.inject_join h m.nodes from peer ttl))
]
inject_action h m from (Action.forward_join ttl record_) now = elim (try_from h record_) [
  | none ↦ Outcome.rejected RpcError.invalid_peer_id m
  | some peer ↦
      Outcome.ingested
        (with_nodes m (View.inject_forward_join h m.nodes peer ttl m.local_node.peer_id from))
]
inject_action h m from (Action.neighbor priority record_) now = elim (try_from h record_) [
  | none ↦ Outcome.rejected RpcError.invalid_peer_id m
  | some peer ↦
      if nat_eq peer.peer_id from
      then Outcome.ingested (with_nodes m (View.inject_neighbor h m.nodes peer priority))
      else Outcome.rejected (RpcError.impersonated_peer from peer.peer_id) m
]
inject_action h m from (Action.disconnect alive) now =
    Outcome.ingested (with_nodes m (View.inject_disconnect h m.nodes from alive))
inject_action h m from (Action.shuffle ttl origin_ nodes) now = elim (try_from h origin_) [
  | none ↦ Outcome.rejected RpcError.invalid_peer_id m
  | some origin ↦
      Outcome.ingested (
        with_nodes m
          (View.inject_shuffle h m.nodes from ttl (filter_map (try_from h) nodes) origin))
]
inject_action h m from (Action.shuffle_reply nodes) now =
    Outcome.ingested (with_nodes m (View.inject_shuffle_reply h m.nodes nodes))
inject_action h m from (Action.message id hop payload) now =
    elim (Tree.inject_message h m.tree from id hop payload now) [
      | none ↦ Outcome.panicked
      | some t ↦ Outcome.ingested (with_tree m t)
    ]
inject_action h m from (Action.ihave ihaves) now =
    Outcome.ingested (with_tree m (inject_ihaves m.tree from ihaves now))
inject_action h m from Action.prune now =
    Outcome.ingested (with_tree m (Tree.inject_prune m.tree from))
inject_action h m from (Action.graft ids) now =
    Outcome.ingested (with_tree m (Tree.inject_graft m.tree from ids))

-- An RPC without an action is a panic: `unwrap` on none.
unfoldable pub inject_rpc_call : Host → TopicMesh → PeerId → Rpc → ℕ → Outcome
inject_rpc_call h m from event now = elim event.action [
  | none ↦ Outcome.panicked
  | some action ↦ inject_action h m from action now
]

-- What the tree hears of an event of the view.
unfoldable pub tell_tree : NetworkAction → PlumTree → PlumTree
tell_tree (NetworkAction.generate_event (EpisubEvent.peer_added p)) t = Tree.inject_neighbor_up t p
tell_tree (NetworkAction.generate_event (EpisubEvent.peer_removed p)) t =
    Tree.inject_neighbor_down t p
tell_tree _ t = t

-- The events of the tree, once the view has none.
unfoldable pub poll_tree : Host → TopicMesh → ℕ → Option (Option NetworkAction × TopicMesh)
poll_tree h m now = elim (Tree.poll h m.tree now) [
  | none ↦ none
  | some (a, t) ↦ some (a, with_tree m t)
]

-- The events of the view, and those of the tree if there are none.
unfoldable pub poll_nodes : Host → TopicMesh → ℕ → Option (Option NetworkAction × TopicMesh)
poll_nodes h m now =
    let polled = View.poll h m.nodes now in
    let told : TopicMesh = with_nodes m polled.1 in
    elim polled.0 [
      | some a ↦ some (some a, with_tree told (tell_tree a m.tree))
      | none ↦ poll_tree h told now
    ]

unfoldable pub poll_own :
    Host → TopicMesh → ℕ → List NetworkAction → Option (Option NetworkAction × TopicMesh)
poll_own h m now [] = poll_nodes h m now
poll_own h m now (a ∷ rest) = some (some a, record m { out_events = rest })

unfoldable pub poll : Host → TopicMesh → ℕ → Option (Option NetworkAction × TopicMesh)
poll h m now = poll_own h m now m.out_events
