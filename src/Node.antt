-- ===== src/Node.antt =====
-- src/main.rs, with the handlers of src/network/mod.rs, src/bus.rs and src/rpc/mod.rs: the main loop,
-- which waits for the network, the bus and the RPC service, and hands what each gives to the others.
pub mod Happening
pub mod Turns
pub mod Waiting
pub mod Queues
pub mod Flowing
pub mod Pipeline
pub mod Taking
pub mod Conservation
pub mod Unheard
mod Tests
use irn.Base.{ℕ, Option, none, some, List, [], ◌∷◌, Result, ok, err, ◌>>=◌, Poll, ready, pending}
use irn.Bus
use irn.Bus.{MessageBus, MessageBusEvent, create_subscription, drop_message}
use irn.Cli.{CliOpts, peers, identity, rpc_endpoints}
use irn.JsonRpc.Service
use irn.JsonRpc.Service.{RpcService, RpcEvent}
use irn.Network
use irn.Network.{Network, NetworkEvent, NetworkCommand, send, poll_events}
use irn.OptionNext

pub record Node : Type 0 where
  pub network : Network
  pub bus : MessageBus
  pub apisvc : Option RpcService

-- The node that `main` creates before its loop.
unfoldable pub start : CliOpts → ℕ → Node
start o now = record {
  network = Network.new o.network_id (peers o) now;
  bus = Bus.new;
  apisvc = elim (rpc_endpoints o) [
    | none ↦ none
    | some addrs ↦ some (Service.new addrs (identity o))
  ];
}

-- `network::handle`: apart from an acknowledgement, what is received is only logged.
unfoldable pub handle_network : NetworkEvent → MessageBus → MessageBus
handle_network (NetworkEvent.message_received msg) b = b
handle_network (NetworkEvent.message_acknowledged hash) b = drop_message b hash
handle_network (NetworkEvent.subscription_received sub) b = b

-- `bus::handle`
unfoldable pub handle_bus : MessageBusEvent → Network → Result NetworkCommand Network
handle_bus (MessageBusEvent._message_delivered hash) n = send n (NetworkCommand.gossip_ack hash)
handle_bus (MessageBusEvent.subscription_created topic) n =
    send n (NetworkCommand.gossip_subscription topic)
handle_bus (MessageBusEvent._subscription_dropped topic) n = ok n

-- `rpc::handle`
unfoldable pub handle_rpc : RpcEvent → Node → Result NetworkCommand Node
handle_rpc (RpcEvent.message msg) n =
    send n.network (NetworkCommand.gossip_message msg)
    >>= (λ after. ok (record n { network = after }))
handle_rpc (RpcEvent._subscription sub socket) n =
    ok (record n { bus = create_subscription n.bus sub socket })

-- The branches that the loop waits for.
pub data Branch : Type 0 where
  network bus rpc : Branch

-- An answer of the network, of the bus and of the service, each with the node after the poll.
abbrev pub on_network : Node → Poll (Option NetworkEvent) → Result NetworkCommand Node
on_network n (ready (some event)) = ok (record n { bus = handle_network event n.bus })
on_network n (ready none) = ok n
on_network n pending = ok n

abbrev pub on_bus : Node → Poll (Option MessageBusEvent) → Result NetworkCommand Node
on_bus n (ready (some event)) =
    handle_bus event n.network >>= (λ after. ok (record n { network = after }))
on_bus n (ready none) = ok n
on_bus n pending = ok n

abbrev pub on_rpc : Node → Poll (Option RpcEvent) → Result NetworkCommand Node
on_rpc n (ready (some event)) = handle_rpc event n
on_rpc n (ready none) = ok n
on_rpc n pending = ok n

-- One turn of the loop, through the branch that `select!` takes. A branch whose poll gives no event
-- leaves the node as it is, and an error ends `main`.
unfoldable pub turn : Node → Branch → Result NetworkCommand Node
turn n Branch.network =
    let (after, answer) = poll_events n.network in on_network (record n { network = after }) answer
turn n Branch.bus =
    let (after, answer) = Bus.poll_next n.bus in on_bus (record n { bus = after }) answer
turn n Branch.rpc =
    let (after, answer) = OptionNext.poll_next Service.poll_next n.apisvc in
    on_rpc (record n { apisvc = after }) answer
