-- ===== src/Network/Gossip.antt =====
-- When the background task can publish what the node gossips.
use irn.Base.{
  ℕ, String, ◌≡◌, refl, subst, Bool, true, false, Option, none, some, [], ◌∷◌, arith, Option-cases,
  inl, inr, Eq-String,
}
use irn.Base.Keyed.{contains, find, contains-find}
use irn.Episub.{Episub, Published, PublishError, topic_key, publish}
use irn.Episub.Calls.{Call, call, run}
use irn.Episub.Keeping.{IsSettled}
use irn.Episub.Knowing.{run-Keeps}
use irn.Episub.Standing.{leaves, run-IsSubscribed}
use irn.Episub.Subscribed.{IsSubscribed}
use irn.Host.{Host}
use irn.Network.{
  Bincode, Task, NetworkCommand, SwarmCall, as_call, gossip, published, message_topic,
  subscribe_topic, ack_topic,
}
use irn.Primitives.{Message, Multihash}
use irn.Rpc.{Bytes, AddressablePeer}

-- The task's swarm: settled, with its three topics, and configured by the network.
pub record IsReady (t : Task) : Type 0 where
  pub settled : IsSettled t.swarm
  pub messages : IsSubscribed (message_topic t.network_id) t.swarm
  pub subscriptions : IsSubscribed (subscribe_topic t.network_id) t.swarm
  pub acks : IsSubscribed (ack_topic t.network_id) t.swarm

abbrev pub ReadyIf : Option Task → Type 0
ReadyIf none = Unit
ReadyIf (some t) = IsReady t

-- The state after one call, as a history.
run-one :
    (h : Host) (e : Episub) (c : Call) {u : Episub}
    → call h e c ≡ some u
    → run h e (c ∷ []) ≡ some u
unfolding run
run-one h e c r = rw (r, run) refl

pub call-IsSubscribed :
    (h : Host) (topic : String) (e : Episub) (c : Call) {u : Episub}
    → leaves h topic c ≡ false
    → call h e c ≡ some u
    → IsSubscribed topic e
    → IsSubscribed topic u
call-IsSubscribed h topic e c {u} l r s =
    run-IsSubscribed h topic (c ∷ []) e {u = u} (l, tt) s (run-one h e c r)

-- One call of the behaviour that gives up no topic.
pub call-IsReady :
    (h : Host) (t : Task) (c : Call) {e : Episub}
    → ((topic : String) → leaves h topic c ≡ false)
    → call h t.swarm c ≡ some e
    → IsReady t
    → IsReady (record t { swarm = e })
call-IsReady h t c {e} l r i = record {
  settled = (run-Keeps h (c ∷ []) t.swarm {u = e} (run-one h t.swarm c r)).settles i.settled;
  messages =
      call-IsSubscribed h (message_topic t.network_id) t.swarm c (l (message_topic t.network_id)) r
        i.messages;
  subscriptions =
      call-IsSubscribed h (subscribe_topic t.network_id) t.swarm c
        (l (subscribe_topic t.network_id)) r i.subscriptions;
  acks =
      call-IsSubscribed h (ack_topic t.network_id) t.swarm c (l (ack_topic t.network_id)) r i.acks;
}

pub as_call-leaves :
    (h : Host) (k : SwarmCall) (topic : String) → leaves h topic (as_call k) ≡ false
as_call-leaves h (SwarmCall.connected peer connection endpoint) topic = refl
as_call-leaves h (SwarmCall.listens addr) topic = refl
as_call-leaves h (SwarmCall.expires addr) topic = refl
as_call-leaves h (SwarmCall.fails peer why) topic = refl
as_call-leaves h (SwarmCall.closed peer) topic = refl
as_call-leaves h (SwarmCall.receives peer connection event now) topic = refl

publishes-call :
    (h : Host) (e : Episub) (topic : String) (payload : Bytes) (now : ℕ)
    → call h e (Call.publishes topic payload now) ≡ some (publish h e topic payload now).0
unfolding call
publishes-call h e topic payload now = refl

published-task :
    (t : Task) (r : Episub × Published) {u : Task}
    → published t r ≡ some u
    → record t { swarm = r.0 } ≡ u
published-task t (e, Published.ok id) g = ground arith
published-task t (e, Published.error why) g = cc

-- A publication that is accepted is a call of the behaviour.
pub gossip-IsReady :
    (h : Host) (t : Task) (topic : String) (payload : Option Bytes) (now : ℕ) {u : Task}
    → gossip h t topic payload now ≡ some u
    → IsReady t
    → IsReady u
gossip-IsReady h t topic none now {u} g i = cc
gossip-IsReady h t topic (some payload) now {u} g i =
    let e = (publish h t.swarm topic payload now).0 in
    let after =
      call-IsReady h t (Call.publishes topic payload now) {e = e} (λ x. refl)
        (publishes-call h t.swarm topic payload now) i in
    subst IsReady (published-task t (publish h t.swarm topic payload now) g) after

-- Whether the command publishes something.
abbrev pub gossips : NetworkCommand → Bool
gossips (NetworkCommand.connect addr) = false
gossips (NetworkCommand.gossip_message m) = true
gossips (NetworkCommand.gossip_ack hash) = true
gossips (NetworkCommand.gossip_subscription sub) = true

-- The serialisation and the compression give a result, as documented for data in memory.
pub record IsTotal (h : Host) (c : Bincode) : Type 0 where
  pub encodes : (b : Bytes) (level : ℕ) → (z : Bytes) × (h.encode_all b level ≡ some z)
  pub writes_message : (m : Message) → (b : Bytes) × (c.serialize_message m ≡ some b)
  pub writes_hash : (m : Multihash) → (b : Bytes) × (c.serialize_hash m ≡ some b)

publish-accepted :
    (h : Host) (e : Episub) (topic : String) (message : Bytes) (now : ℕ)
    → ((b : Bytes) (level : ℕ) → (z : Bytes) × (h.encode_all b level ≡ some z))
    → contains topic_key topic e.topics ≡ true
    → (publish h e topic message now).1 ≡ Published.ok (h.gen_id e.draws)
unfolding publish
publish-accepted h e topic message now z has = elim (Option-cases (find topic_key topic e.topics)) [
  | inl f ↦ absurd (ground (arith, contains-find topic_key topic e.topics))
  | inr (j, f) ↦ let (packed, p) = z message e.config.compression_level in ground arith
]

publish-refused :
    (h : Host) (e : Episub) (topic : String) (message : Bytes) (now : ℕ)
    → e.topics ≡ []
    → (publish h e topic message now).1 ≡ Published.error PublishError.topic_not_subscribed
unfolding publish
publish-refused h e topic message now bare =
    let nothing : find topic_key topic e.topics ≡ none = rw bare refl in ground arith

pub published-some :
    (t : Task) (r : Episub × Published) {id : ℕ}
    → r.1 ≡ Published.ok id
    → published t r ≡ some (record t { swarm = r.0 })
published-some t (e, Published.ok id) r = refl
published-some t (e, Published.error why) r = cc

published-none :
    (t : Task) (r : Episub × Published) {why : PublishError}
    → r.1 ≡ Published.error why
    → published t r ≡ none
published-none t (e, Published.ok id) r = cc
published-none t (e, Published.error why) r = refl

-- What a task with a topic does with a payload for it, by what the node knows of itself.
abbrev pub Gossiped : Option AddressablePeer → Option Task → Type 0
Gossiped none after = after ≡ none
Gossiped (some node) after = (u : Task) × (after ≡ some u)

pub gossip_lem :
    (h : Host) (t : Task) (topic : String) (b : Bytes) (now : ℕ)
    → ((b : Bytes) (level : ℕ) → (z : Bytes) × (h.encode_all b level ≡ some z))
    → IsSettled t.swarm
    → IsSubscribed topic t.swarm
    → Gossiped t.swarm.local_node (gossip h t topic (some b) now)
gossip_lem h t topic b now z settled has = elim (Option-cases t.swarm.local_node) [
  | inl n ↦
      let bare : t.swarm.topics ≡ [] = simp n at settled in
      simp n (
        published-none t (publish h t.swarm topic b now)
          (publish-refused h t.swarm topic b now bare))
  | inr (node, n) ↦
      let drained : t.swarm.pending_topics ≡ [] = (simp n at settled).0 in
      let mesh : contains topic_key topic t.swarm.topics ≡ true = ground arith in
      simp n (
        (record t { swarm = (publish h t.swarm topic b now).0 }),
        published-some t (publish h t.swarm topic b now)
            (publish-accepted h t.swarm topic b now z mesh),
      )
]
