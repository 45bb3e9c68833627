-- ===== src/Node/Happening.antt =====
-- Everything that happens to a node while it runs, in any order: the turns of its main loop, the rounds
-- of the network's task, and the websockets of its clients.
use irn.Base.{◌+◌, ◌-◌, Option, none, some, List, [], ◌∷◌, Result, ok, ◌>>=◌, filter_map}
use irn.Host.{Host}
use irn.JsonRpc.{Formats}
use irn.JsonRpc.Service.{
  RpcService, RpcEvent, WebSocket, Received, serve_rpc_socket, with_events, event_of,
}
use irn.Network.{Bincode, NetworkCommand, Wake, wake}
use irn.Node.{Node, Branch, turn}
use irn.Primitives.{Hasher}

pub data Happening : Type 0 where
  turns : Branch → Happening
  wakes : Wake → Happening
  opens closes : Happening
  serves : WebSocket → Received → Happening

-- A client connects to `/rpc`, disconnects, or sends something.
abbrev pub opened : RpcService → RpcService
opened s = record s { sockets = s.sockets + 1 }

abbrev pub closed : RpcService → RpcService
closed s = record s { sockets = s.sockets - 1 }

abbrev pub on_service : Node → (RpcService → RpcService) → Node
on_service n f = record n { apisvc = elim n.apisvc [ none ↦ none | some s ↦ some (f s) ] }

module _ {Value : Type 0} (h : Host) (c : Bincode) (k : Hasher) (f : Formats Value) where
  abbrev pub served : WebSocket → Received → RpcService → RpcService
  served socket msg s = with_events s (serve_rpc_socket f k socket (msg ∷ []) s.shared_state.events)

  unfoldable pub happen : Node → Happening → Result NetworkCommand Node
  happen n (Happening.turns b) = turn n b
  happen n (Happening.wakes w) = ok (record n { network = wake h c k n.network w })
  happen n Happening.opens = ok (on_service n opened)
  happen n Happening.closes = ok (on_service n closed)
  happen n (Happening.serves socket msg) = ok (on_service n (served socket msg))

  unfoldable pub run : Node → List Happening → Result NetworkCommand Node
  run n [] = ok n
  run n (x ∷ rest) = happen n x >>= (λ u. run u rest)

-- The events of the valid requests that arrive, in order.
abbrev pub arrival : {Value : Type 0} → Hasher → Formats Value → Happening → Option RpcEvent
arrival k f (Happening.serves socket msg) = event_of f k socket msg
arrival k f x = none

abbrev pub arrivals : {Value : Type 0} → Hasher → Formats Value → List Happening → List RpcEvent
arrivals k f = filter_map (arrival k f)
