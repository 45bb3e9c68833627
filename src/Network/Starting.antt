-- ===== src/Network/Starting.antt =====
-- The network of a new node: its swarm waits with the three topics pending.
use irn.Base.{ℕ, String, ◌≡◌, refl, none, some, List, [], arith, Eq-String, beq_refl}
use irn.Base.Keyed.{whole, contains-insert}
use irn.Episub
use irn.Episub.{Episub, PollParameters, subscribe, poll}
use irn.Episub.Calls.{Call, call}
use irn.Episub.Subscribed.{IsSubscribed}
use irn.Host.{Host}
use irn.Network.{start, new, network_config, message_topic, subscribe_topic, ack_topic}
use irn.Network.Gossip.{IsReady, ReadyIf, call-IsSubscribed}
use irn.Rpc.{Multiaddr}

subscribe-IsNew :
    (e : Episub) (topic : String) (now : ℕ)
    → e.local_node ≡ none
    → e.topics ≡ []
    → IsSubscribed topic (subscribe e topic now).0
unfolding subscribe
subscribe-IsNew e topic now n bare =
    ground (arith, contains-insert whole topic topic e.pending_topics, beq_refl topic)

subscribe-IsBare :
    (e : Episub) (topic : String) (now : ℕ)
    → e.local_node ≡ none
    → e.topics ≡ []
    → ((subscribe e topic now).0.local_node ≡ none) × ((subscribe e topic now).0.topics ≡ [])
unfolding subscribe
subscribe-IsBare e topic now n bare = ground arith

subscribes-call :
    (h : Host) (e : Episub) (topic : String) (now : ℕ)
    → call h e (Call.subscribes topic now) ≡ some (subscribe e topic now).0
unfolding call
subscribes-call h e topic now = refl

new-bare :
    ((Episub.new network_config).local_node ≡ none) × ((Episub.new network_config).topics ≡ [])
unfolding Episub.new
new-bare = (refl, refl)

-- The swarm of a new node has the three topics pending.
start-IsReady :
    (h : Host) (network_id : String) (now : ℕ)
    → IsReady (record { network_id = network_id; swarm = start network_id now; dialled = [] })
unfolding start
start-IsReady h network_id now =
    let a = message_topic network_id in
    let b = subscribe_topic network_id in
    let c = ack_topic network_id in
    let first = (subscribe (Episub.new network_config) a now).0 in
    let second = (subscribe first b now).0 in
    let (n1, t1) = subscribe-IsBare (Episub.new network_config) a now new-bare.0 new-bare.1 in
    let (n2, t2) = subscribe-IsBare first b now n1 t1 in
    let (n3, t3) = subscribe-IsBare second c now n2 t2 in
    let later : (e : Episub) (other topic : String)
        → IsSubscribed topic e
        → IsSubscribed topic (subscribe e other now).0 =
      λ e other topic.
        call-IsSubscribed h topic e (Call.subscribes other now) refl
          (subscribes-call h e other now) in
    record {
      settled = simp n3 t3;
      messages = later second c a (
          later first b a
            (subscribe-IsNew (Episub.new network_config) a now new-bare.0 new-bare.1));
      subscriptions = later second c b (subscribe-IsNew first b now n1 t1);
      acks = subscribe-IsNew second c now n2 t2;
    }

pub new-ReadyIf :
    (h : Host) (network_id : String) (bootstrap : List Multiaddr) (now : ℕ)
    → ReadyIf (new network_id bootstrap now).task
unfolding new
new-ReadyIf h network_id bootstrap now = start-IsReady h network_id now
