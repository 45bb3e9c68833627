-- ===== src/JsonRpc/Serving.antt =====
-- What the service makes of a websocket, against a description over the whole of what it receives.
use irn.Base.{
  ◌+◌, ◌<◌, ◌≡◌, refl, List, [], ◌∷◌, ◌++◌, filter_map, inl, inr, pending, arith, append_assoc,
  append-nil, Option-cases, ◌∙◌, sym,
}
use irn.JsonRpc.{Formats}
use irn.JsonRpc.Service.{
  WebSocket, Received, RpcEvent, RpcService, event_of, serve_rpc_socket, poll_next,
}
use irn.Primitives.{Hasher}

-- The events up to the first subscription, which is the last of them.
abbrev pub through_subscription : List RpcEvent → List RpcEvent
through_subscription [] = []
through_subscription (RpcEvent.message m ∷ rest) = RpcEvent.message m ∷ through_subscription rest
through_subscription (RpcEvent._subscription s w ∷ rest) = RpcEvent._subscription s w ∷ []

module _ {Value : Type 0} (f : Formats Value) (h : Hasher) where
  -- The loop over a websocket adds to the channel, in the order of arrival, the events of its valid
  -- requests up to the first subscription, and nothing behind it.
  pub serve_rpc_socket_lem :
      (socket : WebSocket) (received : List Received) (events : List RpcEvent)
      → serve_rpc_socket f h socket received events
        ≡ events ++ through_subscription (filter_map (event_of f h socket) received)
  unfolding serve_rpc_socket
  serve_rpc_socket_lem socket [] events = sym (append-nil events)
  serve_rpc_socket_lem socket (msg ∷ rest) events = elim (Option-cases (event_of f h socket msg)) [
    | inl e ↦ rw (e, serve_rpc_socket, filter_map) (serve_rpc_socket_lem socket rest events)
    | inr (RpcEvent.message m, e) ↦
        rw (e, serve_rpc_socket, filter_map)
          (serve_rpc_socket_lem socket rest (events ++ RpcEvent.message m ∷ [])
            ∙ append_assoc events (RpcEvent.message m ∷ [])
                (through_subscription (filter_map (event_of f h socket) rest)))
    | inr (RpcEvent._subscription s w, e) ↦ rw (e, serve_rpc_socket, filter_map) refl
  ]

-- While a server or a websocket holds the shared state, a poll is pending and takes nothing.
pub poll_next-held : (s : RpcService) → 0 < s.servers + s.sockets → poll_next s ≡ (s, pending)
unfolding poll_next
poll_next-held s held = ground arith
