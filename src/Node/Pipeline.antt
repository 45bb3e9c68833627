-- ===== src/Node/Pipeline.antt =====
-- The way of a request through a node: from the service's queue to the network for a message, and
-- through the bus for a subscription.
use irn.Base.{
  ◌≡◌, refl, sym, ap, subst, ◌∙◌, Option, some, List, [], ◌∷◌, ◌++◌, All, ok, Result-cases,
  append_assoc, append-nil, inl, inr, filter_map, filter_map-append,
}
use irn.Host.{Host}
use irn.JsonRpc.{Formats}
use irn.JsonRpc.Service.{RpcService, RpcEvent}
use irn.JsonRpc.Serving.{serve_rpc_socket_lem}
use irn.Network.{Bincode, Task}
use irn.Node.{Node}
use irn.Node.Happening.{Happening, happen, run, arrivals, opened, closed, served, on_service}
use irn.Node.Turns.{arrivals-one, arrivals-cons}
use irn.Node.Waiting.{
  message_event, subscription_event, messages, subscriptions, messages-arrived,
  subscriptions-arrived,
}
use irn.Primitives.{Hasher, Message, Subscription}
use irn.Node.Flowing.{Flows, FlowsOn, turn-FlowsOn}

-- Whether the network's task is left alone.
abbrev pub IsLocal : Happening → Type 0
IsLocal (Happening.wakes w) = ⊥
IsLocal x = Unit

on_service-Flows :
    (n : Node) (g : RpcService → RpcService) (added : List RpcEvent) (ms : List Message)
    (ss : List Subscription)
    → ((s : RpcService) → (g s).shared_state.events ≡ s.shared_state.events ++ added)
    → Flows n ms ss
    → Flows
        (on_service n g)
        (ms ++ filter_map message_event added)
        (ss ++ filter_map subscription_event added)
on_service-Flows n g added ms ss grows i = record {
  task = i.task;
  alive = i.alive;
  service = g i.service;
  present = rw i.present refl;
  waiting = rw (grows i.service) (
      messages-arrived n.network.netout i.service.shared_state.events added
      ∙ ap (λ l. l ++ filter_map message_event added) i.waiting);
  created = rw (grows i.service) (
      subscriptions-arrived n.network.netout n.bus.events_out i.service.shared_state.events added
      ∙ ap (λ l. l ++ filter_map subscription_event added) i.created);
}

module _ {Value : Type 0} (h : Host) (c : Bincode) (k : Hasher) (f : Formats Value) where
  pub happen-FlowsOn :
      (n : Node) (x : Happening) (ms : List Message) (ss : List Subscription)
      → IsLocal x
      → Flows n ms ss
      → FlowsOn
          (happen h c k f n x)
          (ms ++ filter_map message_event (arrivals k f (x ∷ [])))
          (ss ++ filter_map subscription_event (arrivals k f (x ∷ [])))
  unfolding happen
  happen-FlowsOn n (Happening.turns b) ms ss l i =
      rw (append-nil ms, append-nil ss) (turn-FlowsOn n b ms ss i)
  happen-FlowsOn n (Happening.wakes w) ms ss l i = absurd l
  happen-FlowsOn n Happening.opens ms ss l i =
      on_service-Flows n opened [] ms ss (λ s. sym (append-nil s.shared_state.events)) i
  happen-FlowsOn n Happening.closes ms ss l i =
      on_service-Flows n closed [] ms ss (λ s. sym (append-nil s.shared_state.events)) i
  happen-FlowsOn n (Happening.serves socket msg) ms ss l i =
      on_service-Flows n (served h c k f socket msg)
        (arrivals k f (Happening.serves socket msg ∷ [])) ms ss
        (λ s.
          serve_rpc_socket_lem f k socket (msg ∷ []) s.shared_state.events
          ∙ ap (◌++◌ s.shared_state.events) (arrivals-one k f socket msg))
        i

  pub split :
      {A : Type 0} (g : RpcEvent → Option A) (x : Happening) (rest : List Happening)
      (before : List A)
      → before ++ filter_map g (arrivals k f (x ∷ rest))
        ≡ (before ++ filter_map g (arrivals k f (x ∷ []))) ++ filter_map g (arrivals k f rest)
  split g x rest before =
      ap (λ l. before ++ filter_map g l) (arrivals-cons k f x rest)
      ∙ (ap (◌++◌ before) (filter_map-append g (arrivals k f (x ∷ [])) (arrivals k f rest))
          ∙ sym (
              append_assoc before (filter_map g (arrivals k f (x ∷ [])))
                (filter_map g (arrivals k f rest))))

  run-Flows :
      (happenings : List Happening) (n : Node) (ms : List Message) (ss : List Subscription)
      → All IsLocal happenings
      → Flows n ms ss
      → (u : Node) × (run h c k f n happenings ≡ ok u)
        × Flows u
            (ms ++ filter_map message_event (arrivals k f happenings))
            (ss ++ filter_map subscription_event (arrivals k f happenings))
  unfolding run
  run-Flows [] n ms ss l i = (n, refl, rw (append-nil ms, append-nil ss) i)
  run-Flows (x ∷ rest) n ms ss l i = elim (Result-cases (happen h c k f n x)) [
    | inr (e, p) ↦ absurd (simp p at (happen-FlowsOn n x ms ss l.0 i))
    | inl (w, p) ↦
        let new_ms = filter_map message_event (arrivals k f (x ∷ [])) in
        let new_ss = filter_map subscription_event (arrivals k f (x ∷ [])) in
        let after : Flows w (ms ++ new_ms) (ss ++ new_ss) =
          simp p at (happen-FlowsOn n x ms ss l.0 i) in
        let (u, r, j) = run-Flows rest w (ms ++ new_ms) (ss ++ new_ss) l.1 after in
        (
          u,
          rw p r,
          subst (λ a. Flows u a (ss ++ filter_map subscription_event (arrivals k f (x ∷ rest))))
              (sym (split message_event x rest ms))
              (subst
                (λ b. Flows u ((ms ++ new_ms) ++ filter_map message_event (arrivals k f rest)) b)
                (sym (split subscription_event x rest ss)) j),
        )
  ]

  -- While the network runs and its task is left alone, whatever happens to a node with a service ends
  -- with no error and loses, repeats and reorders nothing: the messages that wait afterwards, in the
  -- commands to the network and then in the queue of the service, are those that waited before, then
  -- those of the valid requests that arrived; and so are the subscriptions, which wait in the commands,
  -- in the events of the bus and in the queue of the service.
  pub run-pipeline :
      (n : Node) (task : Task) (service : RpcService) (happenings : List Happening)
      → n.network.task ≡ some task
      → n.apisvc ≡ some service
      → All IsLocal happenings
      → let events = service.shared_state.events in
        let arrived = arrivals k f happenings in
        (u : Node) × (run h c k f n happenings ≡ ok u)
        × Flows u (messages n.network.netout events ++ filter_map message_event arrived) (
            subscriptions n.network.netout n.bus.events_out events
            ++ filter_map subscription_event arrived)
  run-pipeline n task service happenings alive present l =
      let events = service.shared_state.events in
      run-Flows happenings n (messages n.network.netout events)
        (subscriptions n.network.netout n.bus.events_out events) l
        (record {
          task = task;
          alive = alive;
          service = service;
          present = present;
          waiting = refl;
          created = refl;
        })
