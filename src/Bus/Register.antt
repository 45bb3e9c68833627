-- ===== src/Bus/Register.antt =====
-- The bus as a register of the subscribers: which socket a topic has after any calls.
use irn.Base.{
  ◌≡◌, Option, none, some, List, [], ◌∷◌, if◌then◌else◌, ◌==◌, Eq-ℕ, arith, Option-cases, inl, inr,
  sym,
}
use irn.Base.Keyed.{find, find-put, find-remove}
use irn.Bus.{
  MessageBus, Sockets, Served, served_topic, create_subscription, _drop_subscription, drop_message,
  _send_message, poll_next,
}
use irn.JsonRpc.Service.{WebSocket}
use irn.Primitives.{Hasher, Multihash, Message}

pub data Call : Type 0 where
  creates : (topic : Multihash) (socket : WebSocket) → Call
  drops acknowledges : (hash : Multihash) → Call
  sends : (message : Message) → Call
  polls : Call

-- The bus after the call; a panic in sending leaves none.
unfoldable pub call : Hasher → Sockets → MessageBus → Call → Option MessageBus
call h w b (Call.creates topic socket) = some (create_subscription b topic socket)
call h w b (Call.drops topic) = some (_drop_subscription b topic)
call h w b (Call.acknowledges hash) = some (drop_message b hash)
call h w b (Call.sends message) = elim (_send_message h w b message) [
  | none ↦ none
  | some r ↦ some r.0
]
call h w b Call.polls = some (poll_next b).0

unfoldable pub run : Hasher → Sockets → MessageBus → List Call → Option MessageBus
run h w b [] = some b
run h w b (c ∷ rest) = elim (call h w b c) [ none ↦ none | some u ↦ run h w u rest ]

abbrev pub socket_of : Option Served → Option WebSocket
socket_of none = none
socket_of (some s) = some s.socket

-- The register: the socket of a topic before, then the calls.
abbrev pub register : Multihash → Option WebSocket → List Call → Option WebSocket
register topic held [] = held
register topic held (Call.creates t socket ∷ rest) =
    register topic (if t == topic then some socket else held) rest
register topic held (Call.drops t ∷ rest) = register topic (if t == topic then none else held) rest
register topic held (Call.acknowledges hash ∷ rest) = register topic held rest
register topic held (Call.sends message ∷ rest) = register topic held rest
register topic held (Call.polls ∷ rest) = register topic held rest

module _ (h : Hasher) (w : Sockets) where
  created :
      (b : MessageBus) (topic t : Multihash) (socket : WebSocket)
      → socket_of (find served_topic topic (create_subscription b t socket).topics)
        ≡ (if t == topic then some socket else socket_of (find served_topic topic b.topics))
  unfolding create_subscription
  created b topic t socket =
      ground (arith, find-put served_topic topic (record { topic = t; socket = socket }) b.topics)

  dropped :
      (b : MessageBus) (topic t : Multihash)
      → socket_of (find served_topic topic (_drop_subscription b t).topics)
        ≡ (if t == topic then none else socket_of (find served_topic topic b.topics))
  unfolding _drop_subscription
  dropped b topic t = ground (arith, find-remove served_topic topic t b.topics)

  sent :
      (b : MessageBus) (message : Message) {u : MessageBus}
      → call h w b (Call.sends message) ≡ some u
      → u.topics ≡ b.topics
  unfolding call _send_message
  sent b message {u} e = ground arith

  polled : (b : MessageBus) → (poll_next b).0.topics ≡ b.topics
  unfolding poll_next
  polled b = ground arith

  -- After any calls that do not panic, the bus has for each topic the socket of the last subscription
  -- that was created on it and not dropped since, and otherwise none.
  pub run-register :
      (calls : List Call) (b : MessageBus) (topic : Multihash) {u : MessageBus}
      → run h w b calls ≡ some u
      → socket_of (find served_topic topic u.topics)
        ≡ register topic (socket_of (find served_topic topic b.topics)) calls
  unfolding run call drop_message
  run-register [] b topic {u} r = ground arith
  run-register (Call.creates t socket ∷ rest) b topic {u} r =
      rw (sym (created b topic t socket))
        (run-register rest (create_subscription b t socket) topic {u = u} r)
  run-register (Call.drops t ∷ rest) b topic {u} r =
      rw (sym (dropped b topic t)) (run-register rest (_drop_subscription b t) topic {u = u} r)
  run-register (Call.acknowledges hash ∷ rest) b topic {u} r =
      run-register rest (drop_message b hash) topic {u = u} r
  run-register (Call.sends message ∷ rest) b topic {u} r =
      elim (Option-cases (call h w b (Call.sends message))) [
        | inl e ↦ absurd (ground arith)
        | inr (v, e) ↦
            rw (sym (sent b message {u = v} e)) (run-register rest v topic {u = u} (ground arith))
      ]
  run-register (Call.polls ∷ rest) b topic {u} r =
      rw (sym (polled b)) (run-register rest (poll_next b).0 topic {u = u} r)
