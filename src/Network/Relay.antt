-- ===== src/Network/Relay.antt =====
-- What a node gossips, through the behaviour and the trees of two nodes, to the other node.
use irn.Base.{ℕ, String, ◌≡◌, refl, subst, ◌∙◌, true, none, some, arith, Eq-ℕ, Eq-String, beq_refl}
use irn.Base.Keyed.{contains, find, whole, find-put}
use irn.Cache
use irn.Cache.{record_item, info_item}
use irn.Episub.{Episub, Joined, Published, topic_key, joined, publish}
use irn.Host.{Host}
use irn.Network.{Bincode, Task, NetworkCommand, dispatch, execute, gossip}
use irn.Network.Dispatch.{IsLawfulBincode, addressed, echo, dispatch-addressed}
use irn.Network.Gossip.{published-some}
use irn.Primitives.{Hasher}
use irn.Rpc.{PeerId, Bytes, Action, EpisubEvent, NetworkAction}
use irn.Topic
use irn.Tree
use irn.Tree.{PlumTree, inject_message, notify}
use irn.Tree.Relay.{
  Holds, Unpacks, packed_payload, delivered_payload-packed_payload, publish-Holds,
  inject_message-Holds,
}

-- A mesh of the topic that has not seen the message, with the peer among its eager ones.
pub record IsSender (t : Task) (topic : String) (id : ℕ) (peer : PeerId) (j : Joined) : Type 0 where
  pub meshed : find topic_key topic t.swarm.topics ≡ some j
  pub named : j.mesh.tree.topic ≡ topic
  pub fresh : Cache.get record_item j.mesh.tree.received id ≡ none
  pub unseen : Cache.get info_item j.mesh.tree.observed id ≡ none
  pub eager : contains whole peer j.mesh.tree.eager ≡ true

-- A tree of the same topic that has not received the message, and compresses if the sender does.
pub record IsReceiver (t : Task) (topic : String) (id : ℕ) (u : PlumTree) : Type 0 where
  pub named : u.topic ≡ topic
  pub agreed : t.swarm.config.enable_compression ≡ u.config.enable_compression
  pub fresh : Cache.get record_item u.received id ≡ none

-- The message on the wire, from the node to the peer.
abbrev pub on_wire : String → ℕ → Bytes → PeerId → NetworkAction
on_wire topic id packed peer =
    NetworkAction.notify_handler peer
      (record { topic = topic; action = some (Action.message id 1 packed) })

module _ (h : Host) (c : Bincode) (s : Hasher) where
  publish-meshed :
      (e : Episub) (topic : String) (payload packed : Bytes) (now : ℕ) (j : Joined)
      → find topic_key topic e.topics ≡ some j
      → packed_payload h e.config payload ≡ some packed
      → ((publish h e topic payload now).1 ≡ Published.ok (h.gen_id e.draws))
        × (find topic_key topic (publish h e topic payload now).0.topics
            ≡ some (joined topic (Topic.publish j.mesh (h.gen_id e.draws) packed now)))
  unfolding publish
  publish-meshed e topic payload packed now j found e_packed =
      let mesh = joined topic (Topic.publish j.mesh (h.gen_id e.draws) packed now) in
      ground (arith, find-put topic_key topic mesh e.topics, beq_refl topic)

  execute-addressed :
      (t : Task) (command : NetworkCommand) (payload : Bytes) (now : ℕ)
      → (addressed c t.network_id command).1 ≡ some payload
      → execute h c t command now
        ≡ gossip h t (addressed c t.network_id command).0 (some payload) now
  unfolding execute
  execute-addressed t (NetworkCommand.connect addr) payload now e = cc
  execute-addressed t (NetworkCommand.gossip_message m) payload now e = rw e refl
  execute-addressed t (NetworkCommand.gossip_ack hash) payload now e = rw e refl
  execute-addressed t (NetworkCommand.gossip_subscription sub) payload now e = rw e refl

  -- A publication of the mesh puts the message on the wire.
  wired :
      {t : Task} (topic : String) (id : ℕ) (packed : Bytes) (peer : PeerId) (now : ℕ) (j : Joined)
      → IsSender t topic id peer j
      → Holds (on_wire topic id packed peer) (Topic.publish j.mesh id packed now).tree.out_events
  unfolding Topic.publish
  wired topic id packed peer now j i =
      subst
        (λ n. Holds (on_wire n id packed peer) (Tree.publish j.mesh.tree id packed now).out_events)
        i.named (publish-Holds j.mesh.tree peer id packed now i.fresh i.unseen i.eager)

  -- A command to gossip whose topic has a mesh at this node, with a message id that is new to both
  -- trees, is executed: the message is queued on the wire for each eager peer of the mesh. The tree of a
  -- peer that takes it from the wire accepts it and queues its delivery with the payload as it was
  -- serialised. From a message or a subscription the network of that peer makes the event with it; from
  -- an acknowledgement it makes what `Multihash::from_bytes` reads in the payload, which may be nothing.
  pub execute-relayed :
      IsLawfulBincode c
      → Unpacks h
      → (t : Task) (command : NetworkCommand) (now later : ℕ) (payload packed : Bytes)
        (peer from : PeerId) (j : Joined) (u : PlumTree)
      → (addressed c t.network_id command).1 ≡ some payload
      → packed_payload h t.swarm.config payload ≡ some packed
      → let topic = (addressed c t.network_id command).0 in
        let id = h.gen_id t.swarm.draws in
        IsSender t topic id peer j
        → IsReceiver t topic id u
        → (v : Task) × (execute h c t command now ≡ some v)
          × (k : Joined) × (find topic_key topic v.swarm.topics ≡ some k)
          × Holds (on_wire topic id packed peer) k.mesh.tree.out_events
          × (w : PlumTree) × (inject_message h u from id 1 packed later ≡ some w)
          × Holds
              (NetworkAction.generate_event (EpisubEvent.message_received topic id payload))
              w.out_events
          × (dispatch c s t.network_id (EpisubEvent.message_received topic id payload)
              ≡ echo s command payload)
  execute-relayed l z t command now later payload packed peer from j u a p i r =
      let topic = (addressed c t.network_id command).0 in
      let id = h.gen_id t.swarm.draws in
      let sent = publish h t.swarm topic payload now in
      let (accepted, meshed) = publish-meshed t.swarm topic payload packed now j i.meshed p in
      let readable =
        delivered_payload-packed_payload h t.swarm.config u.config payload packed z r.agreed p in
      let (w, injected, held) =
        inject_message-Holds h u from id 1 packed payload later r.fresh readable in
      (
        record t { swarm = sent.0 },
        execute-addressed t command payload now a ∙ published-some t sent accepted,
        joined topic (Topic.publish j.mesh id packed now),
        meshed,
        wired topic id packed peer now j i,
        w,
        injected,
        subst
            (λ n.
              Holds (NetworkAction.generate_event (EpisubEvent.message_received n id payload))
                w.out_events)
            r.named held,
        dispatch-addressed c s l t.network_id command id a,
      )
