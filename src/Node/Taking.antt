-- ===== src/Node/Taking.antt =====
-- What the network's task takes from the commands, and when it is alive.
use irn.Base.{
  ℕ, ◌≡◌, refl, ◌∙◌, Option, none, some, List, [], ◌∷◌, ◌++◌, ok, err, ◌>>=◌, Result-cases, arith,
  Option-cases, inl, inr, Poll, ready, pending,
}
use irn.Bus
use irn.Bus.{MessageBus, MessageBusEvent, create_subscription}
use irn.Episub.{poll, PollParameters}
use irn.Host.{Host}
use irn.JsonRpc.{Formats}
use irn.JsonRpc.Service
use irn.JsonRpc.Service.{RpcService, RpcEvent}
use irn.Network.{
  Bincode, Network, NetworkCommand, NetworkEvent, Task, Wake, wake, wake_task, wake_command, send,
  poll_events, receive,
}
use irn.Node.{Node, Branch, turn, handle_bus, handle_rpc, on_network, on_bus, on_rpc}
use irn.Node.Happening.{Happening, happen, run}
use irn.OptionNext
use irn.Primitives.{Hasher}

abbrev pub front : {A : Type 0} → List A → List A
front [] = []
front (x ∷ xs) = x ∷ []

-- The command that a round of the task takes.
abbrev pub executed : Network → Wake → List NetworkCommand
executed n (Wake.commanded now) = elim n.task [ none ↦ [] | some t ↦ front n.netout ]
executed n w = []

abbrev pub taken_one : Node → Happening → List NetworkCommand
taken_one n (Happening.wakes w) = executed n.network w
taken_one n x = []

pushed-task :
    (n : Node) (command : NetworkCommand) {u : Node}
    → send n.network command >>= (λ after. ok (record n { network = after })) ≡ ok u
    → u.network.task ≡ n.network.task
unfolding send
pushed-task n command {u} e = elim (Option-cases n.network.task) [
  | inl gone ↦ absurd (ground arith)
  | inr (t, there) ↦ ground arith
]

network-task :
    (n : Node) (events : List NetworkEvent) {u : Node}
    → let r = receive n.network events in
      on_network (record n { network = r.0 }) r.1 ≡ ok u → u.network.task ≡ n.network.task
network-task n [] {u} e = ground arith
network-task n (event ∷ rest) {u} e = ground arith

bus-task :
    (n : Node) (answer : Poll (Option MessageBusEvent)) {u : Node}
    → on_bus n answer ≡ ok u
    → u.network.task ≡ n.network.task
unfolding handle_bus
bus-task n (ready (some (MessageBusEvent._message_delivered hash))) {u} e =
    pushed-task n (NetworkCommand.gossip_ack hash) {u = u} e
bus-task n (ready (some (MessageBusEvent.subscription_created topic))) {u} e =
    pushed-task n (NetworkCommand.gossip_subscription topic) {u = u} e
bus-task n (ready (some (MessageBusEvent._subscription_dropped topic))) {u} e = ground arith
bus-task n (ready none) {u} e = ground arith
bus-task n pending {u} e = ground arith

rpc-task :
    (n : Node) (answer : Poll (Option RpcEvent)) {u : Node}
    → on_rpc n answer ≡ ok u
    → u.network.task ≡ n.network.task
unfolding handle_rpc
rpc-task n (ready (some (RpcEvent.message m))) {u} e =
    pushed-task n (NetworkCommand.gossip_message m) {u = u} e
rpc-task n (ready (some (RpcEvent._subscription s w))) {u} e = ground arith
rpc-task n (ready none) {u} e = ground arith
rpc-task n pending {u} e = ground arith

-- No turn of the main loop revives the task, or ends it.
turn-task : (n : Node) (b : Branch) {u : Node} → turn n b ≡ ok u → u.network.task ≡ n.network.task
unfolding turn poll_events
turn-task n Branch.network {u} e = network-task n n.network.netin {u = u} e
turn-task n Branch.bus {u} e =
    bus-task (record n { bus = (Bus.poll_next n.bus).0 }) (Bus.poll_next n.bus).1 {u = u} e
turn-task n Branch.rpc {u} e =
    let polled = OptionNext.poll_next Service.poll_next n.apisvc in
    rpc-task (record n { apisvc = polled.0 }) polled.1 {u = u} e

module _ (h : Host) (c : Bincode) (k : Hasher) where
  wake_command-netout :
      (n : Network) (t : Task) (waiting : List NetworkCommand) (now : ℕ)
      → n.netout ≡ waiting
      → front waiting ++ (wake_command h c k n t waiting now).netout ≡ waiting
  wake_command-netout n t [] now e = e
  wake_command-netout n t (command ∷ rest) now e = refl

  idle :
      (n : Network) (w : Wake) → n.task ≡ none → executed n w ++ (wake h c k n w).netout ≡ n.netout
  unfolding wake
  idle n (Wake.called s) gone = ground arith
  idle n (Wake.polled params now) gone = ground arith
  idle n (Wake.commanded now) gone = ground arith

  polled-netout :
      (n : Network) (t : Task) (params : PollParameters) (now : ℕ)
      → (wake_task h c k n t (Wake.polled params now)).netout ≡ n.netout
  unfolding wake_task
  polled-netout n t params now = elim (Option-cases (poll h t.swarm params now)) [
    | inl p ↦ ground arith
    | inr (r, p) ↦ ground arith
  ]

  awake :
      (n : Network) (t : Task) (w : Wake)
      → n.task ≡ some t
      → executed n w ++ (wake h c k n w).netout ≡ n.netout
  unfolding wake wake_task
  awake n t (Wake.called s) there = ground arith
  awake n t (Wake.polled params now) there = rw (there, wake) (polled-netout n t params now)
  awake n t (Wake.commanded now) there = ground (arith, wake_command-netout n t n.netout now refl)

  -- A round takes the front of the commands, or none.
  pub executed-netout :
      (n : Network) (w : Wake) → executed n w ++ (wake h c k n w).netout ≡ n.netout
  unfolding wake wake_task
  executed-netout n w = elim (Option-cases n.task) [
    | inl gone ↦ idle n w gone
    | inr (t, there) ↦ awake n t w there
  ]

module _ {Value : Type 0} (h : Host) (c : Bincode) (k : Hasher) (f : Formats Value) where
  -- The commands that the task takes in a history.
  unfoldable pub taken : Node → List Happening → List NetworkCommand
  taken n [] = []
  taken n (x ∷ rest) =
      taken_one n x ++ elim (happen h c k f n x) [ err e ↦ [] | ok u ↦ taken u rest ]

  dead :
      (n : Node) (x : Happening) {u : Node}
      → happen h c k f n x ≡ ok u
      → n.network.task ≡ none
      → u.network.task ≡ none
  unfolding happen wake
  dead n (Happening.turns b) {u} e gone = turn-task n b {u = u} e ∙ gone
  dead n (Happening.wakes w) {u} e gone = ground arith
  dead n Happening.opens {u} e gone = ground arith
  dead n Happening.closes {u} e gone = ground arith
  dead n (Happening.serves socket msg) {u} e gone = ground arith

  run-dead :
      (happenings : List Happening) (n : Node) {u : Node}
      → run h c k f n happenings ≡ ok u
      → n.network.task ≡ none
      → u.network.task ≡ none
  unfolding run
  run-dead [] n {u} e gone = ground arith
  run-dead (x ∷ rest) n {u} e gone = elim (Result-cases (happen h c k f n x)) [
    | inr (w, p) ↦ absurd (ground arith)
    | inl (w, p) ↦ run-dead rest w {u = u} (ground arith) (dead n x {u = w} p gone)
  ]

  pub alive-before :
      (n : Node) (x : Happening) {w : Node} {t : Task}
      → happen h c k f n x ≡ ok w
      → w.network.task ≡ some t
      → (task : Task) × (n.network.task ≡ some task)
  alive-before n x {w} {t} e alive = elim (Option-cases n.network.task) [
    | inr found ↦ found
    | inl gone ↦ let lost = dead n x {u = w} e gone in absurd (ground arith)
  ]

  pub alive-after :
      (rest : List Happening) (w : Node) {u : Node} {t : Task}
      → run h c k f w rest ≡ ok u
      → u.network.task ≡ some t
      → (task : Task) × (w.network.task ≡ some task)
  alive-after rest w {u} {t} e alive = elim (Option-cases w.network.task) [
    | inr found ↦ found
    | inl gone ↦ let lost = run-dead rest w {u = u} e gone in absurd (ground arith)
  ]
