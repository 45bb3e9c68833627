-- ===== src/Node/Flowing.antt =====
-- One turn of the main loop, and the messages and the subscriptions that wait in a node.
use irn.Base.{◌≡◌, refl, subst, ◌∙◌, some, List, [], ◌∷◌, Result, ok, err, ready, inl, inr}
use irn.Bus.{MessageBusEvent, create_subscription}
use irn.JsonRpc.Service.{RpcService, RpcEvent, with_events}
use irn.Network.{NetworkCommand, NetworkEvent, Task, poll_events, receive}
use irn.Node.{Node, Branch, turn, handle_bus, handle_rpc, on_network, on_rpc, on_bus}
use irn.Node.Turns.{handle_network_lem}
use irn.Node.Waiting.{
  messages, subscriptions, messages-moved, messages-other, subscriptions-other,
  subscriptions-announced, subscriptions-created,
}
use irn.Node.Queues.{sending, bus_empty, bus_front, service_polled, optional_polled}
use irn.Primitives.{Message, Subscription}

-- A node whose network runs and that has a service, with the messages and the subscriptions that wait.
pub record Flows (n : Node) (ms : List Message) (ss : List Subscription) : Type 0 where
  pub task : Task
  pub alive : n.network.task ≡ some task
  pub service : RpcService
  pub present : n.apisvc ≡ some service
  pub waiting : messages n.network.netout service.shared_state.events ≡ ms
  pub created : subscriptions n.network.netout n.bus.events_out service.shared_state.events ≡ ss

abbrev pub FlowsOn : Result NetworkCommand Node → List Message → List Subscription → Type 0
FlowsOn (ok u) ms ss = Flows u ms ss
FlowsOn (err command) ms ss = ⊥

network_turn-FlowsOn :
    (n : Node) (events : List NetworkEvent) (ms : List Message) (ss : List Subscription)
    → Flows n ms ss
    → let r = receive n.network events in
      FlowsOn (on_network (record n { network = r.0 }) r.1) ms ss
network_turn-FlowsOn n (event ∷ rest) ms ss i = record {
  task = i.task;
  alive = i.alive;
  service = i.service;
  present = i.present;
  waiting = i.waiting;
  created = rw (handle_network_lem event n.bus) i.created;
}
network_turn-FlowsOn n [] ms ss i = simp (receive, i.alive) i

-- An event of the bus, taken from the front of its queue.
bus_event-FlowsOn :
    (n : Node) (event : MessageBusEvent) (rest : List MessageBusEvent) (ms : List Message)
    (ss : List Subscription)
    → n.bus.events_out ≡ event ∷ rest
    → Flows n ms ss
    → FlowsOn
        (on_bus (record n { bus = record n.bus { events_out = rest } }) (ready (some event)))
        ms
        ss
unfolding handle_bus
bus_event-FlowsOn n (MessageBusEvent._message_delivered hash) rest ms ss e i =
    let command = NetworkCommand.gossip_ack hash in
    rw (sending n.network i.task command i.alive) (record {
      task = i.task;
      alive = i.alive;
      service = i.service;
      present = i.present;
      waiting =
          messages-other n.network.netout command i.service.shared_state.events refl ∙ i.waiting;
      created =
          subscriptions-other n.network.netout command rest i.service.shared_state.events refl
          ∙ subst (λ b. subscriptions n.network.netout b i.service.shared_state.events ≡ ss) e
              i.created;
    })
bus_event-FlowsOn n (MessageBusEvent.subscription_created topic) rest ms ss e i =
    let command = NetworkCommand.gossip_subscription topic in
    rw (sending n.network i.task command i.alive) (record {
      task = i.task;
      alive = i.alive;
      service = i.service;
      present = i.present;
      waiting =
          messages-other n.network.netout command i.service.shared_state.events refl ∙ i.waiting;
      created =
          subscriptions-announced n.network.netout topic rest i.service.shared_state.events
          ∙ subst (λ b. subscriptions n.network.netout b i.service.shared_state.events ≡ ss) e
              i.created;
    })
bus_event-FlowsOn n (MessageBusEvent._subscription_dropped topic) rest ms ss e i = record {
  task = i.task;
  alive = i.alive;
  service = i.service;
  present = i.present;
  waiting = i.waiting;
  created =
      subst (λ b. subscriptions n.network.netout b i.service.shared_state.events ≡ ss) e i.created;
}

-- An event of the service, taken from the front of its queue.
rpc_event-FlowsOn :
    (n : Node) (event : RpcEvent) (rest : List RpcEvent) (ms : List Message)
    (ss : List Subscription) (i : Flows n ms ss)
    → i.service.shared_state.events ≡ event ∷ rest
    → FlowsOn
        (on_rpc (record n { apisvc = some (with_events i.service rest) }) (ready (some event)))
        ms
        ss
unfolding handle_rpc create_subscription
rpc_event-FlowsOn n (RpcEvent.message m) rest ms ss i e =
    let command = NetworkCommand.gossip_message m in
    rw (sending n.network i.task command i.alive) (record {
      task = i.task;
      alive = i.alive;
      service = with_events i.service rest;
      present = refl;
      waiting =
          messages-moved n.network.netout m rest
          ∙ subst (λ q. messages n.network.netout q ≡ ms) e i.waiting;
      created =
          subscriptions-other n.network.netout command n.bus.events_out rest refl
          ∙ subst (λ q. subscriptions n.network.netout n.bus.events_out q ≡ ss) e i.created;
    })
rpc_event-FlowsOn n (RpcEvent._subscription s w) rest ms ss i e = record {
  task = i.task;
  alive = i.alive;
  service = with_events i.service rest;
  present = refl;
  waiting = subst (λ q. messages n.network.netout q ≡ ms) e i.waiting;
  created =
      subscriptions-created n.network.netout s w n.bus.events_out rest
      ∙ subst (λ q. subscriptions n.network.netout n.bus.events_out q ≡ ss) e i.created;
}

bus_turn-FlowsOn :
    (n : Node) (events : List MessageBusEvent) (ms : List Message) (ss : List Subscription)
    → n.bus.events_out ≡ events
    → Flows n ms ss
    → FlowsOn (turn n Branch.bus) ms ss
unfolding turn
bus_turn-FlowsOn n [] ms ss e i = rw (bus_empty n.bus e) i
bus_turn-FlowsOn n (event ∷ rest) ms ss e i =
    rw (bus_front n.bus e) (bus_event-FlowsOn n event rest ms ss e i)

rpc_turn-FlowsOn :
    (n : Node) (ms : List Message) (ss : List Subscription)
    → Flows n ms ss
    → FlowsOn (turn n Branch.rpc) ms ss
unfolding turn
rpc_turn-FlowsOn n ms ss i = elim (service_polled i.service i.service.shared_state.events refl) [
  | inl idle ↦ rw (optional_polled n.apisvc i.service i.present idle) (record {
    task = i.task;
    alive = i.alive;
    service = i.service;
    present = refl;
    waiting = i.waiting;
    created = i.created;
  })
  | inr (event, rest, e, p) ↦
      rw (optional_polled n.apisvc i.service i.present p) (rpc_event-FlowsOn n event rest ms ss i e)
]

pub turn-FlowsOn :
    (n : Node) (b : Branch) (ms : List Message) (ss : List Subscription)
    → Flows n ms ss
    → FlowsOn (turn n b) ms ss
unfolding turn poll_events
turn-FlowsOn n Branch.network ms ss i = network_turn-FlowsOn n n.network.netin ms ss i
turn-FlowsOn n Branch.bus ms ss i = bus_turn-FlowsOn n n.bus.events_out ms ss refl i
turn-FlowsOn n Branch.rpc ms ss i = rpc_turn-FlowsOn n ms ss i
