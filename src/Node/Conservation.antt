-- ===== src/Node/Conservation.antt =====
-- The way of a request to the network's task: what the task has taken, with what still waits.
use irn.Base.{
  ◌≡◌, refl, sym, ap, subst, ◌∙◌, Option, some, List, [], ◌∷◌, ◌++◌, ok, Result-cases, arith,
  append_assoc, append-nil, inl, inr, filter_map, filter_map-append,
}
use irn.Bus.{MessageBusEvent}
use irn.Host.{Host}
use irn.JsonRpc.{Formats}
use irn.JsonRpc.Service.{RpcService, RpcEvent}
use irn.Network.{Bincode, NetworkCommand, Task, Wake, wake}
use irn.Node.{Node}
use irn.Node.Happening.{Happening, happen, run, arrivals}
use irn.Node.Flowing.{Flows}
use irn.Node.Pipeline.{happen-FlowsOn, IsLocal}
use irn.Node.Turns.{arrivals-cons}
use irn.Node.Waiting.{
  message_event, message_command, subscription_event, subscription_command, subscription_created,
  messages, subscriptions,
}
use irn.Primitives.{Hasher}
use irn.Node.Taking.{executed, taken_one, taken, executed-netout, alive-before, alive-after}

messages-taken :
    (front_ out : List NetworkCommand) (events : List RpcEvent)
    → messages (front_ ++ out) events ≡ filter_map message_command front_ ++ messages out events
messages-taken front_ out events = ground (
  arith,
  filter_map-append message_command front_ out,
  append_assoc (filter_map message_command front_) (filter_map message_command out)
      (filter_map message_event events),
)

subscriptions-taken :
    (front_ out : List NetworkCommand) (created : List MessageBusEvent) (events : List RpcEvent)
    → subscriptions (front_ ++ out) created events
      ≡ filter_map subscription_command front_ ++ subscriptions out created events
subscriptions-taken front_ out created events = ground (
  arith,
  filter_map-append subscription_command front_ out,
  append_assoc (filter_map subscription_command front_) (filter_map subscription_command out)
      (filter_map subscription_created created ++ filter_map subscription_event events),
)

-- What one step and the steps behind it do, together.
steps-append :
    {M : Type 0} (g : NetworkCommand → Option M) (v : RpcEvent → Option M)
    (a b : List NetworkCommand) (x r : List RpcEvent) (u w n : List M)
    → filter_map g b ++ u ≡ w ++ filter_map v r
    → filter_map g a ++ w ≡ n ++ filter_map v x
    → filter_map g (a ++ b) ++ u ≡ n ++ filter_map v (x ++ r)
steps-append g v a b x r u w n later first =
    ap (λ l. l ++ u) (filter_map-append g a b)
    ∙ (append_assoc (filter_map g a) (filter_map g b) u
        ∙ (ap (◌++◌ (filter_map g a)) later
            ∙ (sym (append_assoc (filter_map g a) w (filter_map v r))
                ∙ (ap (λ l. l ++ filter_map v r) first
                    ∙ (append_assoc n (filter_map v x) (filter_map v r)
                        ∙ ap (◌++◌ n) (sym (filter_map-append v x r)))))))

-- The node u comes from n, where the service had these events: the task has taken some commands, and
-- some requests have arrived.
pub record Conserves (n u : Node) (service : RpcService) (took : List NetworkCommand)
    (arrived : List RpcEvent) : Type 0 where
  pub later : RpcService
  pub present : u.apisvc ≡ some later
  pub kept :
      filter_map message_command took ++ messages u.network.netout later.shared_state.events
      ≡ messages n.network.netout service.shared_state.events ++ filter_map message_event arrived
  pub created :
      filter_map subscription_command took
        ++ subscriptions u.network.netout u.bus.events_out later.shared_state.events
      ≡ subscriptions n.network.netout n.bus.events_out service.shared_state.events
        ++ filter_map subscription_event arrived

Conserves-trans :
    (n w u : Node) (service : RpcService) (a b : List NetworkCommand) (x r : List RpcEvent)
    (first : Conserves n w service a x)
    → Conserves w u first.later b r
    → Conserves n u service (a ++ b) (x ++ r)
Conserves-trans n w u service a b x r first rest = record {
  later = rest.later;
  present = rest.present;
  kept =
      steps-append message_command message_event a b x r
        (messages u.network.netout rest.later.shared_state.events)
        (messages w.network.netout first.later.shared_state.events)
        (messages n.network.netout service.shared_state.events) rest.kept first.kept;
  created =
      steps-append subscription_command subscription_event a b x r
        (subscriptions u.network.netout u.bus.events_out rest.later.shared_state.events)
        (subscriptions w.network.netout w.bus.events_out first.later.shared_state.events)
        (subscriptions n.network.netout n.bus.events_out service.shared_state.events) rest.created
        first.created;
}

module _ {Value : Type 0} (h : Host) (c : Bincode) (k : Hasher) (f : Formats Value) where
  -- A happening that leaves the task alone, while the task is alive.
  local-Conserves :
      (n : Node) (x : Happening) (service : RpcService) (task : Task) {w : Node}
      → IsLocal x
      → n.apisvc ≡ some service
      → n.network.task ≡ some task
      → happen h c k f n x ≡ ok w
      → Conserves n w service [] (arrivals k f (x ∷ []))
  local-Conserves n x service task {w} l present alive e =
      let ms = messages n.network.netout service.shared_state.events in
      let ss = subscriptions n.network.netout n.bus.events_out service.shared_state.events in
      let i : Flows n ms ss = record {
        task = task;
        alive = alive;
        service = service;
        present = present;
        waiting = refl;
        created = refl;
      } in
      let j : Flows w (ms ++ filter_map message_event (arrivals k f (x ∷ [])))
          (ss ++ filter_map subscription_event (arrivals k f (x ∷ []))) =
        simp e at (happen-FlowsOn h c k f n x ms ss l i) in
      record { later = j.service; present = j.present; kept = j.waiting; created = j.created }

  -- A round of the task.
  wake-Conserves :
      (n : Node) (w : Wake) (service : RpcService)
      → n.apisvc ≡ some service
      → Conserves n
          (record n { network = wake h c k n.network w })
          service
          (executed n.network w)
          []
  wake-Conserves n w service present =
      let out = (wake h c k n.network w).netout in
      let same = executed-netout h c k n.network w in
      let events = service.shared_state.events in
      record {
        later = service;
        present = present;
        kept =
            sym (messages-taken (executed n.network w) out events)
            ∙ (ap (λ o. messages o events) same
                ∙ sym (append-nil (messages n.network.netout events)));
        created =
            sym (subscriptions-taken (executed n.network w) out n.bus.events_out events)
            ∙ (ap (λ o. subscriptions o n.bus.events_out events) same
                ∙ sym (append-nil (subscriptions n.network.netout n.bus.events_out events)));
      }

  happen-Conserves :
      (n : Node) (x : Happening) (service : RpcService) {w : Node} {t : Task}
      → n.apisvc ≡ some service
      → happen h c k f n x ≡ ok w
      → w.network.task ≡ some t
      → Conserves n w service (taken_one n x) (arrivals k f (x ∷ []))
  unfolding happen
  happen-Conserves n (Happening.turns b) service {w} {t} present e alive =
      let (task, before) = alive-before h c k f n (Happening.turns b) {w = w} e alive in
      local-Conserves n (Happening.turns b) service task {w = w} tt present before e
  happen-Conserves n (Happening.wakes v) service {w} {t} present e alive =
      let out : record n { network = wake h c k n.network v } ≡ w = ground arith in
      subst (λ u. Conserves n u service (executed n.network v) []) out
        (wake-Conserves n v service present)
  happen-Conserves n Happening.opens service {w} {t} present e alive =
      let (task, before) = alive-before h c k f n Happening.opens {w = w} e alive in
      local-Conserves n Happening.opens service task {w = w} tt present before e
  happen-Conserves n Happening.closes service {w} {t} present e alive =
      let (task, before) = alive-before h c k f n Happening.closes {w = w} e alive in
      local-Conserves n Happening.closes service task {w = w} tt present before e
  happen-Conserves n (Happening.serves socket msg) service {w} {t} present e alive =
      let (task, before) = alive-before h c k f n (Happening.serves socket msg) {w = w} e alive in
      local-Conserves n (Happening.serves socket msg) service task {w = w} tt present before e

  -- In every history of a node with a service in which no turn fails and the task does not panic, the
  -- messages that the task has taken, followed by those that still wait in the commands and in the
  -- queue of the service, are those that waited at first, followed by those of the valid requests that
  -- arrived, each once and in this order; and so are the subscriptions, which wait in the bus as well.
  pub run-Conserves :
      (happenings : List Happening) (n u : Node) (service : RpcService) {t : Task}
      → n.apisvc ≡ some service
      → run h c k f n happenings ≡ ok u
      → u.network.task ≡ some t
      → Conserves n u service (taken h c k f n happenings) (arrivals k f happenings)
  unfolding run taken
  run-Conserves [] n u service {t} present e alive =
      let out : n ≡ u = ground arith in
      subst (λ v. Conserves n v service [] []) out
        (record {
          later = service;
          present = present;
          kept = sym (append-nil (messages n.network.netout service.shared_state.events));
          created = sym (
              append-nil
                (subscriptions n.network.netout n.bus.events_out service.shared_state.events));
        })
  run-Conserves (x ∷ rest) n u service {t} present e alive =
      elim (Result-cases (happen h c k f n x)) [
        | inr (w, p) ↦ absurd (ground arith)
        | inl (w, p) ↦
            let onward : run h c k f w rest ≡ ok u = ground arith in
            let (task, awake_) = alive-after h c k f rest w {u = u} onward alive in
            let first = happen-Conserves n x service {w = w} present p awake_ in
            let later = run-Conserves rest w u first.later {t = t} first.present onward alive in
            let both =
              Conserves-trans n w u service (taken_one n x) (taken h c k f w rest)
                (arrivals k f (x ∷ [])) (arrivals k f rest) first later in
            let took : taken h c k f n (x ∷ rest) ≡ taken_one n x ++ taken h c k f w rest =
              ground arith in
            rw (took, arrivals-cons k f x rest) both
      ]
