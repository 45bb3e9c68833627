-- ===== src/JsonRpc/Tests.antt =====
-- The requests of two clients, and the theorems about them.
use irn.Base.{◌≡◌, refl, ◌↔◌, inl, List, [], ◌∷◌, ok, ℕ}
use irn.JsonRpc.{parse_request, parse_method, parse_publish, parse_subscribe, get_string}
use irn.JsonRpc.Parsing
use irn.JsonRpc.Service.{Received, RpcEvent, serve_rpc_socket, event_of}
use irn.JsonRpc.Serving
use irn.Primitives.{Message, new}
use irn.Samples.Crates.{hasher, formats}

program : Unit {0}
unfolding parse_request parse_method parse_publish parse_subscribe get_string serve_rpc_socket
    event_of new
program = tt

abbrev hello : Message
hello = new 7 (104 ∷ 105 ∷ [])

parse_request-Describes_example : (parse_request formats hasher "publish" ≡ ok (inl hello)) ↔ (
    (json : ℕ) × (formats.from_str "publish" ≡ ok json)
    × Parsing.Describes formats hasher json (inl hello))
parse_request-Describes_example =
    Parsing.parse_request-Describes formats hasher "publish" (inl hello)

accepted : parse_request formats hasher "publish" ≡ ok (inl hello)
unfolding program
accepted = refl

abbrev session : List Received
session =
    Received.text "publish"
    ∷ Received.other
    ∷ Received.text "nonsense"
    ∷ Received.text "subscribe"
    ∷ Received.text "publish"
    ∷ []

serve_rpc_socket_lem_example :
    serve_rpc_socket formats hasher 1 session []
    ≡ RpcEvent.message hello ∷ RpcEvent._subscription 7 1 ∷ []
unfolding program
serve_rpc_socket_lem_example = Serving.serve_rpc_socket_lem formats hasher 1 session []
