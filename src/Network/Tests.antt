-- ===== src/Network/Tests.antt =====
-- A network that has just started, and its theorems there.
use irn.Base.{◌≡◌, refl, sym, some, List, [], ◌∷◌, Eq-ℕ, Eq-String}
use irn.Episub
use irn.Base.Keyed.{find}
use irn.Cache
use irn.Host.{Host}
use irn.Topic
use irn.Topic.{TopicMesh}
use irn.Tree
use irn.Tree.{PlumTree}
use irn.Tree.Relay
use irn.Network.{
  network_config, NetworkEvent, NetworkCommand, Task, Wake, new, start, wake, wake_task, send,
  poll_events, dispatch, execute, message_topic,
}
use irn.Network.Dispatch
use irn.Network.Relay as Wire
use irn.Network.Waking
use irn.Network.Waking.{Activity, act, run_all}
use irn.Primitives
use irn.Primitives.{Message}
use irn.Rpc.{Bytes, EpisubEvent, NetworkAction, Protocol, Multiaddr}
use irn.Samples.{host, peer}
use irn.Samples.Crates.{bincode, bincode-IsLawful, hasher}

program : Unit {0}
unfolding Topic.new Tree.new Tree.inject_neighbor_up Cache.new Cache.get new start wake wake_task
    send poll_events dispatch execute act run_all Primitives.new Episub.subscribe Episub.publish
    Episub.new
program = tt

abbrev hello : Message
hello = Primitives.new 7 (104 ∷ 105 ∷ [])

dispatch-addressed_example :
    dispatch bincode hasher "irn"
      (EpisubEvent.message_received (message_topic "irn") 1 (7 ∷ 104 ∷ 105 ∷ []))
    ≡ some (NetworkEvent.message_received hello)
unfolding program
dispatch-addressed_example =
    Dispatch.dispatch-addressed bincode hasher bincode-IsLawful "irn"
      (NetworkCommand.gossip_message hello) 1 {payload = 7 ∷ 104 ∷ 105 ∷ []} refl

abbrev bootstrap : List Multiaddr
bootstrap = (Protocol.ip4 9 ∷ Protocol.tcp 44668 ∷ []) ∷ []

abbrev activities : List Activity
activities =
    Activity.sent (NetworkCommand.gossip_ack 3)
    ∷ Activity.woken (Wake.commanded 0)
    ∷ Activity.received
    ∷ []

-- The task after it has dialled the bootstrap node.
abbrev task : Task
task = record { network_id = "irn"; swarm = start "irn" 0; dialled = bootstrap }

-- A host whose decompression gives back everything.
abbrev plain : Host
plain = record host { decode_all = λ b. some b }

-- The mesh of messages of node 1, with peer 2 among its eager ones.
abbrev mesh : TopicMesh
mesh =
    let m = Topic.new (message_topic "irn") network_config (peer 1) 0 in
    record m { tree = Tree.inject_neighbor_up m.tree 2 }

abbrev meshed : Task
meshed = record {
  network_id = "irn";
  swarm = record (Episub.new network_config) {
    local_node = some (peer 1);
    topics = Episub.joined (message_topic "irn") mesh ∷ [];
  };
  dialled = [];
}

-- The tree of node 2.
abbrev remote : PlumTree
remote = Tree.new (message_topic "irn") network_config 2 0

abbrev bytes : Bytes
bytes = 7 ∷ 104 ∷ 105 ∷ []

execute-relayed_example :
    (v : Task) × (execute plain bincode meshed (NetworkCommand.gossip_message hello) 5 ≡ some v)
    × (k : Episub.Joined) × (find Episub.topic_key (message_topic "irn") v.swarm.topics ≡ some k)
    × Relay.Holds (Wire.on_wire (message_topic "irn") 100 bytes 2) k.mesh.tree.out_events
    × (w : PlumTree) × (Tree.inject_message plain remote 1 100 1 bytes 6 ≡ some w)
    × Relay.Holds
        (NetworkAction.generate_event
          (EpisubEvent.message_received (message_topic "irn") 100 bytes))
        w.out_events
    × (dispatch bincode hasher "irn" (EpisubEvent.message_received (message_topic "irn") 100 bytes)
        ≡ some (NetworkEvent.message_received hello))
unfolding program
execute-relayed_example =
    Wire.execute-relayed plain bincode hasher bincode-IsLawful (λ b level z e. sym e) meshed
      (NetworkCommand.gossip_message hello) 5 6 bytes bytes 2 1
      (Episub.joined (message_topic "irn") mesh) remote refl refl
      (record { meshed = refl; named = refl; fresh = refl; unseen = refl; eager = refl })
      (record { named = refl; agreed = refl; fresh = refl })
