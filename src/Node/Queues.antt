-- ===== src/Node/Queues.antt =====
-- What a poll takes from the queues of a node, and what sending puts there.
use irn.Base.{
  ◌+◌, ◌≡◌, ◌⊎◌, refl, Option, some, List, [], ◌∷◌, ◌++◌, ok, Poll, ready, pending, arith,
  Bool-cases, inl, inr, nat_eq,
}
use irn.Bus
use irn.Bus.{MessageBus, MessageBusEvent, create_subscription, emit}
use irn.JsonRpc.Service
use irn.JsonRpc.Service.{RpcService, RpcEvent, with_events, pop}
use irn.Network.{Network, NetworkCommand, Task, send}
use irn.OptionNext

-- A command is sent while the network runs.
pub sending :
    (n : Network) (task : Task) (command : NetworkCommand)
    → n.task ≡ some task
    → send n command ≡ ok (record n { netout = n.netout ++ command ∷ [] })
unfolding send
sending n task command alive = rw alive refl

pub bus_empty : (b : MessageBus) → b.events_out ≡ [] → Bus.poll_next b ≡ (b, pending)
unfolding Bus.poll_next
bus_empty b e = rw e refl

pub bus_front :
    (b : MessageBus) {event : MessageBusEvent} {rest : List MessageBusEvent}
    → b.events_out ≡ event ∷ rest
    → Bus.poll_next b ≡ (record b { events_out = rest }, ready (some event))
unfolding Bus.poll_next
bus_front b e = rw e refl

-- A poll of the service takes the front of its queue, or nothing.
pub service_polled :
    (s : RpcService) (events : List RpcEvent)
    → s.shared_state.events ≡ events
    → (Service.poll_next s ≡ (s, pending))
      ⊎ ((event : RpcEvent) × (rest : List RpcEvent) × (s.shared_state.events ≡ event ∷ rest)
          × (Service.poll_next s ≡ (with_events s rest, ready (some event))))
unfolding Service.poll_next
service_polled s [] e = inl (ground arith)
service_polled s (event ∷ rest) e = elim (Bool-cases (nat_eq (s.servers + s.sockets) 0)) [
  | inl free ↦ inr (event, rest, e, ground arith)
  | inr held ↦ inl (ground arith)
]

pub optional_polled :
    (o : Option RpcService) (s : RpcService) {r : RpcService × Poll (Option RpcEvent)}
    → o ≡ some s
    → Service.poll_next s ≡ r
    → OptionNext.poll_next Service.poll_next o ≡ (some r.0, r.1)
unfolding OptionNext.poll_next
optional_polled o s present e = rw present (rw e refl)
