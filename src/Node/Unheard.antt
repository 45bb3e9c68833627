-- ===== src/Node/Unheard.antt =====
-- A node that serves RPC endpoints never reads a request: its servers hold the state of the service, so
-- `Arc::get_mut` gives nothing.
use irn.Base.{
  ℕ, ◌<◌, ◌≡◌, refl, sym, ap, subst, ◌∙◌, Result-cases, false, Option, some, List, [], ◌∷◌, ◌++◌,
  map, All, Result, ok, err, pending, arith, append_assoc, append-nil, Option-cases, inl, inr,
}
use irn.Bus
use irn.Cli.{CliOpts, IpAddr, peers, identity, rpc_endpoints, endpoint}
use irn.Episub.{poll, PollParameters}
use irn.Host.{Host}
use irn.JsonRpc.{Formats}
use irn.JsonRpc.Service
use irn.JsonRpc.Service.{
  RpcService, RpcEvent, WebSocket, Received, event_of, serve_rpc_socket, with_events,
}
use irn.JsonRpc.Serving.{poll_next-held, serve_rpc_socket_lem}
use irn.Network
use irn.Network.{
  Bincode, Network, NetworkCommand, NetworkEvent, Task, Wake, wake, wake_task, wake_command,
  with_task, poll_events, receive, execute,
}
use irn.Network.Gossip.{gossips}
use irn.Node.{Node, Branch, start, turn, on_network}
use irn.Node.Happening.{Happening, happen, run, arrivals, opened, closed, served, on_service}
use irn.Node.Turns.{arrivals-one, arrivals-cons, handle_network_lem}
use irn.OptionNext
use irn.Rpc.{Multiaddr}
use irn.Primitives.{Hasher}

abbrev pub IsQuiet : NetworkCommand → Type 0
IsQuiet command = gossips command ≡ false

-- The service holds these events behind its servers, the bus is as new, and nothing waits to be
-- gossiped.
pub record IsUnheard (n : Node) (events : List RpcEvent) : Type 0 where
  pub service : RpcService
  pub present : n.apisvc ≡ some service
  pub held : 0 < service.servers
  pub queue : service.shared_state.events ≡ events
  pub fresh : n.bus ≡ Bus.new
  pub quiet : All IsQuiet n.network.netout

-- A happening that is no error and leaves the node so.
abbrev Kept : Result NetworkCommand Node → List RpcEvent → Type 0
Kept (ok u) events = IsUnheard u events
Kept (err command) events = ⊥

module _ {Value : Type 0} (h : Host) (c : Bincode) (k : Hasher) (f : Formats Value) where
  wake_command-All :
      (n : Network) (t : Task) (waiting : List NetworkCommand) (now : ℕ)
      → All IsQuiet n.netout
      → All IsQuiet waiting
      → All IsQuiet (wake_command h c k n t waiting now).netout
  wake_command-All n t [] now q w = q
  wake_command-All n t (command ∷ rest) now q w = w.1

  polled-netout :
      (n : Network) (t : Task) (params : PollParameters) (now : ℕ)
      → (wake_task h c k n t (Wake.polled params now)).netout ≡ n.netout
  unfolding wake_task
  polled-netout n t params now = elim (Option-cases (poll h t.swarm params now)) [
    | inl p ↦ ground arith
    | inr (r, p) ↦ ground arith
  ]

  wake_task-All :
      (n : Network) (t : Task) (w : Wake)
      → All IsQuiet n.netout
      → All IsQuiet (wake_task h c k n t w).netout
  unfolding wake_task
  wake_task-All n t (Wake.called s) q = q
  wake_task-All n t (Wake.polled params now) q =
      subst (All IsQuiet) (sym (polled-netout n t params now)) q
  wake_task-All n t (Wake.commanded now) q = wake_command-All n t n.netout now q q

  wake-All : (n : Network) (w : Wake) → All IsQuiet n.netout → All IsQuiet (wake h c k n w).netout
  unfolding wake
  wake-All n w q = elim (Option-cases n.task) [
    | inl gone ↦ simp (wake, gone) q
    | inr (t, there) ↦ simp (wake, there) (wake_task-All n t w q)
  ]

  on_service-IsUnheard :
      (n : Node) (g : RpcService → RpcService) (events later : List RpcEvent)
      → ((s : RpcService) → (g s).servers ≡ s.servers)
      → ((s : RpcService) → s.shared_state.events ≡ events → (g s).shared_state.events ≡ later)
      → IsUnheard n events
      → IsUnheard (on_service n g) later
  on_service-IsUnheard n g events later same grows i = record {
    service = g i.service;
    present = rw i.present refl;
    held = rw (same i.service) i.held;
    queue = grows i.service i.queue;
    fresh = i.fresh;
    quiet = i.quiet;
  }

  network_turn :
      (n : Node) (waiting : List NetworkEvent) (events : List RpcEvent)
      → IsUnheard n events
      → let r = receive n.network waiting in
        Kept (on_network (record n { network = r.0 }) r.1) events
  network_turn n (event ∷ rest) events i = record {
    service = i.service;
    present = i.present;
    held = i.held;
    queue = i.queue;
    fresh = handle_network_lem event n.bus ∙ i.fresh;
    quiet = i.quiet;
  }
  network_turn n [] events i = elim (Option-cases n.network.task) [
    | inl gone ↦ simp (receive, gone) i
    | inr (t, there) ↦ simp (receive, there) i
  ]

  bus_idle : (b : Bus.MessageBus) → b ≡ Bus.new → Bus.poll_next b ≡ (b, pending)
  unfolding Bus.poll_next Bus.new
  bus_idle b fresh = rw fresh refl

  rpc_idle :
      (o : Option RpcService) (service : RpcService)
      → o ≡ some service
      → Service.poll_next service ≡ (service, pending)
      → OptionNext.poll_next Service.poll_next o ≡ (o, pending)
  unfolding OptionNext.poll_next
  rpc_idle o service present idle = rw present (rw idle refl)

  turn-Kept :
      (n : Node) (b : Branch) (events : List RpcEvent) → IsUnheard n events → Kept (turn n b) events
  unfolding turn poll_events
  turn-Kept n Branch.network events i = network_turn n n.network.netin events i
  turn-Kept n Branch.bus events i = rw (bus_idle n.bus i.fresh) i
  turn-Kept n Branch.rpc events i =
      let idle : OptionNext.poll_next Service.poll_next n.apisvc ≡ (n.apisvc, pending) =
        rpc_idle n.apisvc i.service i.present (poll_next-held i.service (omega (arith, i.held))) in
      rw idle i

  happen-Kept :
      (n : Node) (x : Happening) (events : List RpcEvent)
      → IsUnheard n events
      → Kept (happen h c k f n x) (events ++ arrivals k f (x ∷ []))
  unfolding happen
  happen-Kept n (Happening.turns b) events i = rw (append-nil events) (turn-Kept n b events i)
  happen-Kept n (Happening.wakes w) events i = record {
    service = i.service;
    present = i.present;
    held = i.held;
    queue = rw (append-nil events) i.queue;
    fresh = i.fresh;
    quiet = wake-All n.network w i.quiet;
  }
  happen-Kept n Happening.opens events i =
      rw (append-nil events) (on_service-IsUnheard n opened events events (λ s. refl) (λ s e. e) i)
  happen-Kept n Happening.closes events i =
      rw (append-nil events) (on_service-IsUnheard n closed events events (λ s. refl) (λ s e. e) i)
  happen-Kept n (Happening.serves socket msg) events i =
      on_service-IsUnheard n (served h c k f socket msg) events
        (events ++ arrivals k f (Happening.serves socket msg ∷ [])) (λ s. refl)
        (λ s e.
          rw
            (
              serve_rpc_socket_lem f k socket (msg ∷ []) s.shared_state.events,
              e,
              arrivals-one k f socket msg,
            )
            refl)
        i

  -- The result of a history, with the events that have arrived before it.
  run-Kept :
      (happenings : List Happening) (n : Node) (events : List RpcEvent)
      → IsUnheard n events
      → (u : Node) × (run h c k f n happenings ≡ ok u)
        × IsUnheard u (events ++ arrivals k f happenings)
  unfolding run
  run-Kept [] n events i = (n, refl, rw (append-nil events) i)
  run-Kept (x ∷ rest) n events i = elim (Result-cases (happen h c k f n x)) [
    | inr (e, p) ↦ absurd (simp p at (happen-Kept n x events i))
    | inl (w, p) ↦
        let after : IsUnheard w (events ++ arrivals k f (x ∷ [])) =
          simp p at (happen-Kept n x events i) in
        let (u, r, j) = run-Kept rest w (events ++ arrivals k f (x ∷ [])) after in
        let joined =
          append_assoc events (arrivals k f (x ∷ [])) (arrivals k f rest)
          ∙ sym (ap (◌++◌ events) (arrivals-cons k f x rest)) in
        (u, rw p r, subst (IsUnheard u) joined j)
  ]

  connects : (addrs : List Multiaddr) → All IsQuiet (map NetworkCommand.connect addrs)
  connects [] = tt
  connects (a ∷ addrs) = (refl, connects addrs)

  start-IsUnheard :
      (o : CliOpts) (now port : ℕ) (a : IpAddr) (rest : List IpAddr)
      → o.rpc ≡ some port
      → o.addr ≡ a ∷ rest
      → IsUnheard (start o now) []
  unfolding start rpc_endpoints Service.new Network.new
  start-IsUnheard o now port a rest serves listens = record {
    service = Service.new (map (endpoint port) (a ∷ rest)) (identity o);
    present = rw (serves, listens) refl;
    held = omega arith;
    queue = refl;
    fresh = refl;
    quiet = connects (peers o);
  }

  -- Whatever happens to a node that serves RPC on an address, no turn of its main loop fails, and every
  -- valid request of its clients is still in the queue of the service, in the order of arrival: none
  -- reaches the bus, and no command to gossip is ever sent to the network.
  pub run-IsUnheard :
      (o : CliOpts) (now port : ℕ) (a : IpAddr) (rest : List IpAddr) (happenings : List Happening)
      → o.rpc ≡ some port
      → o.addr ≡ a ∷ rest
      → (u : Node) × (run h c k f (start o now) happenings ≡ ok u)
        × IsUnheard u (arrivals k f happenings)
  run-IsUnheard o now port a rest happenings serves listens =
      run-Kept happenings (start o now) [] (start-IsUnheard o now port a rest serves listens)
