-- ===== src/Node/Turns.antt =====
-- The requests that arrive one by one, and what an event of the network does.
use irn.Base.{◌≡◌, refl, List, [], ◌∷◌, ◌++◌, arith, Option-cases, inl, inr, filter_map}
use irn.Bus
use irn.JsonRpc.{Formats}
use irn.JsonRpc.Service.{RpcEvent, WebSocket, Received, event_of}
use irn.JsonRpc.Serving.{through_subscription}
use irn.Network.{NetworkEvent}
use irn.Node.{handle_network}
use irn.Node.Happening.{Happening, arrival, arrivals}
use irn.Primitives.{Hasher}

-- No event of the network changes the bus.
pub handle_network_lem : (event : NetworkEvent) (b : Bus.MessageBus) → handle_network event b ≡ b
unfolding handle_network Bus.drop_message
handle_network_lem (NetworkEvent.message_received msg) b = refl
handle_network_lem (NetworkEvent.message_acknowledged hash) b = refl
handle_network_lem (NetworkEvent.subscription_received sub) b = refl

module _ {Value : Type 0} (k : Hasher) (f : Formats Value) where
  pub arrivals-one :
      (socket : WebSocket) (msg : Received)
      → through_subscription (filter_map (event_of f k socket) (msg ∷ []))
        ≡ arrivals k f (Happening.serves socket msg ∷ [])
  arrivals-one socket msg = elim (Option-cases (event_of f k socket msg)) [
    | inl e ↦ ground arith
    | inr (RpcEvent.message m, e) ↦ ground arith
    | inr (RpcEvent._subscription s w, e) ↦ ground arith
  ]

  pub arrivals-cons :
      (x : Happening) (rest : List Happening)
      → arrivals k f (x ∷ rest) ≡ arrivals k f (x ∷ []) ++ arrivals k f rest
  arrivals-cons x rest = elim (Option-cases (arrival k f x)) [
    | inl e ↦ ground arith
    | inr (y, e) ↦ ground arith
  ]
