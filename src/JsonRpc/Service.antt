-- ===== src/JsonRpc/Service.antt =====
-- src/rpc/service.rs and src/rpc/mod.rs: the service behind the websockets of external clients. The
-- two ends of a channel are one queue.
use irn.Base.{
  ℕ, ◌+◌, String, Option, none, some, List, [], ◌∷◌, ◌++◌, inl, inr, ok, err, Poll, ready, pending,
  nat_eq, length, if◌then◌else◌,
}
use irn.JsonRpc.{Formats, parse_request}
use irn.Primitives.{Hasher, Message, Subscription}
use irn.Primitives.Keys.{Pubkey}

-- The websocket of a client: which one it is.
abbrev pub WebSocket : Type 0
WebSocket = ℕ

-- What a websocket receives: a text, a message of another kind, or an error.
pub data Received : Type 0 where
  text : String → Received
  other failed : Received

pub data RpcEvent : Type 0 where
  message : Message → RpcEvent
  _subscription : Subscription → WebSocket → RpcEvent

-- `ServiceSharedState`, with the channel's queue.
pub record ServiceSharedState : Type 0 where
  pub identity : Pubkey
  pub events : List RpcEvent

-- The service, with the number of other holders of its shared state: each server that listens on an
-- address, and each open websocket.
pub record RpcService : Type 0 where
  pub shared_state : ServiceSharedState
  pub servers : ℕ
  pub sockets : ℕ

unfoldable pub new : {A : Type 0} → List A → Pubkey → RpcService
new addrs identity = record {
  shared_state = record { identity = identity; events = [] };
  servers = length addrs;
  sockets = 0;
}

module _ {Value : Type 0} (f : Formats Value) (h : Hasher) where
  -- What one received item adds to the channel. An invalid item is logged.
  unfoldable pub event_of : WebSocket → Received → Option RpcEvent
  event_of socket (Received.text msg) = elim (parse_request f h msg) [
    | ok (inl m) ↦ some (RpcEvent.message m)
    | ok (inr s) ↦ some (RpcEvent._subscription s socket)
    | err e ↦ none
  ]
  event_of socket Received.other = none
  event_of socket Received.failed = none

  -- The loop over what the socket receives until it closes. A subscription ends the loop, since the
  -- socket goes with its event.
  unfoldable pub serve_rpc_socket : WebSocket → List Received → List RpcEvent → List RpcEvent
  serve_rpc_socket socket [] events = events
  serve_rpc_socket socket (msg ∷ rest) events = elim (event_of socket msg) [
    | none ↦ serve_rpc_socket socket rest events
    | some (RpcEvent.message m) ↦ serve_rpc_socket socket rest (events ++ RpcEvent.message m ∷ [])
    | some (RpcEvent._subscription s w) ↦ events ++ RpcEvent._subscription s w ∷ []
  ]

-- The service with another queue.
abbrev pub with_events : RpcService → List RpcEvent → RpcService
with_events s events = record s { shared_state = record s.shared_state { events = events } }

abbrev pub pop : RpcService → List RpcEvent → RpcService × Poll (Option RpcEvent)
pop s [] = (s, pending)
pop s (e ∷ rest) = (with_events s rest, ready (some e))

-- `Arc::get_mut` gives the shared state only if nothing else holds it.
unfoldable pub poll_next : RpcService → RpcService × Poll (Option RpcEvent)
poll_next s = if nat_eq (s.servers + s.sockets) 0 then pop s s.shared_state.events else (s, pending)
