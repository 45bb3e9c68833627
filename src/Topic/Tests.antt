-- ===== src/Topic/Tests.antt =====
-- TopicMesh on small inputs, and its theorems at concrete meshes.
use irn.Base.{arith, Eq-ℕ, ◌≡◌, refl, true, List, [], ◌∷◌, some}
use irn.Cache
use irn.Rpc.{PeerId, Action, Rpc}
use irn.Samples.{host, host-IsLawful, config, peer}
use irn.Topic.{
  TopicMesh, new, disconnected, inject_action, inject_rpc_call, inject_ihaves, tell_tree, poll,
  poll_own, poll_nodes, poll_tree,
}
use irn.Topic.Calls.{Call, call, run}
use irn.Topic.Clock
use irn.Topic.Routing
use irn.Tree
use irn.Tree.Links.{is_linked}
use irn.View
use irn.View.{peer_key}
use irn.Base.Keyed.{contains}
use irn.Config.{max_active_view_size, min_active_view_size, log2, log2_loop}

program : Unit {0}
unfolding new disconnected inject_rpc_call inject_action inject_ihaves tell_tree poll poll_own
    poll_nodes poll_tree call run Tree.new Tree.inject_neighbor_up Tree.inject_neighbor_down
    Tree.inject_prune Tree.poll Tree.maintain Tree.pop_from Cache.new View.new View.to_record
    View.try_from View.is_active View.overconnected View.starved View.announce
    View.add_node_to_active_view View.inject_neighbor View.poll View.pop_event View.pop_from
    View.periodic_topup View.periodic_shuffle max_active_view_size min_active_view_size log2
    log2_loop
program = tt

-- Peer 3 asks to be a neighbour, and the node polls.
abbrev calls : List Call
calls =
    Call.receives 3
      (record { topic = "t"; action = some (Action.neighbor 0 (View.to_record host (peer 3))) }) 1
    ∷ Call.polls 2
    ∷ []

abbrev joined : TopicMesh
joined = record {
  tree = record (Tree.new "t" config 0 0) { eager = 3 ∷ [] };
  nodes = record (View.new "t" config (peer 0) 0) { active = peer 3 ∷ [] };
  local_node = peer 0;
  out_events = [];
}

run-linked_example :
    (m : TopicMesh) × (run host (new "t" config (peer 0) 0) calls ≡ some m)
    × (m.nodes.out_events ≡ []
        → (k : PeerId) → contains peer_key k m.nodes.active ≡ true
        → is_linked m.tree k ≡ true)
run-linked_example =
    Clock.run-linked host-IsLawful config (omega arith) "t" (peer 0) 0 calls
      (omega arith, tt, (omega arith, tt, tt))

-- The history ends with peer 3 as a member, and no event left.
ends : run host (new "t" config (peer 0) 0) calls ≡ some joined
unfolding program
ends = refl

-- Peer 4 asks for peer 3.
impersonated : Action
impersonated = Action.neighbor 0 (View.to_record host (peer 3))

abbrev request : Rpc
request = record { topic = "t"; action = some impersonated }

inject_rpc_call-Answers_example :
    Routing.Answers host joined impersonated
      (Routing.violation host 4 impersonated)
      (inject_rpc_call host joined 4 request 5)
inject_rpc_call-Answers_example = Routing.inject_rpc_call-Answers host joined 4 request 5
