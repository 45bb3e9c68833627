-- ===== src/Topic/Routing.antt =====
-- Which messages a mesh turns down, and that they leave it as it was.
use irn.Base.{
  ℕ, ◌≡◌, refl, Bool, true, false, not, ◌&&◌, Option, none, some, nat_eq, arith, Option-cases, inl,
  inr, if◌then◌else◌, Bool-cases,
}
use irn.Host.{Host}
use irn.Rpc.{PeerId, Bytes, PeerRecord, Action, Rpc}
use irn.Topic.{TopicMesh, Outcome, RpcError, inject_action, inject_rpc_call}
use irn.Tree
use irn.View.{try_from}

-- The peer that a message names, whose identity has to be readable.
abbrev pub named : Action → Option PeerRecord
named (Action.join ttl peer) = some peer
named (Action.forward_join ttl peer) = some peer
named (Action.neighbor priority peer) = some peer
named (Action.shuffle ttl origin nodes) = some origin
named _ = none

-- Whether the message speaks for its sender, who must then be the peer that it names.
abbrev pub speaks_for_sender : Action → Bool
speaks_for_sender (Action.neighbor priority peer) = true
speaks_for_sender _ = false

-- The violation of the protocol in a message, if there is one, by the documented rules: a peer that
-- is named has a readable identity, and nobody sends a NEIGHBOR request for someone else.
abbrev pub violation : Host → PeerId → Action → Option RpcError
violation h from a = elim (named a) [
  | none ↦ none
  | some r ↦ elim (try_from h r) [
    | none ↦ some RpcError.invalid_peer_id
    | some p ↦
        if speaks_for_sender a && not (nat_eq p.peer_id from)
        then some (RpcError.impersonated_peer from p.peer_id)
        else none
  ]
]

-- The message has a payload that does not decompress.
abbrev pub IsUnreadable : Host → Action → Type 0
IsUnreadable h (Action.message id hop payload) = h.decode_all payload ≡ none
IsUnreadable h _ = ⊥

-- The answer carries the violation: the unchanged mesh with it, or anything else without one.
abbrev pub Answers : Host → TopicMesh → Action → Option RpcError → Outcome → Type 0
Answers h m a v (Outcome.ingested u) = v ≡ none
Answers h m a v (Outcome.rejected e u) = (v ≡ some e) × (u ≡ m)
Answers h m a v Outcome.panicked = (v ≡ none) × IsUnreadable h a

-- The answer to an action, if there is one, carries its violation; without one it is a panic.
abbrev pub AnswersIf : Host → TopicMesh → PeerId → Option Action → Outcome → Type 0
AnswersIf h m from none o = o ≡ Outcome.panicked
AnswersIf h m from (some a) o = Answers h m a (violation h from a) o

inject_message-unreadable :
    (h : Host) (t : Tree.PlumTree) (from : PeerId) (id hop : ℕ) (payload : Bytes) (now : ℕ)
    → Tree.inject_message h t from id hop payload now ≡ none
    → h.decode_all payload ≡ none
unfolding Tree.inject_message Tree.delivered_payload
inject_message-unreadable h t from id hop payload now e = ground arith

-- An action is rejected exactly when it violates the protocol, and a panic is due to its payload.
pub inject_action-Answers :
    (h : Host) (m : TopicMesh) (from : PeerId) (a : Action) (now : ℕ)
    → Answers h m a (violation h from a) (inject_action h m from a now)
unfolding inject_action
inject_action-Answers h m from (Action.join ttl r) now = elim (Option-cases (try_from h r)) [
  | inl e ↦ rw (e, violation, inject_action) (refl, refl)
  | inr (p, e) ↦ rw (e, violation, inject_action) refl
]
inject_action-Answers h m from (Action.forward_join ttl r) now =
    elim (Option-cases (try_from h r)) [
      | inl e ↦ rw (e, violation, inject_action) (refl, refl)
      | inr (p, e) ↦ rw (e, violation, inject_action) refl
    ]
inject_action-Answers h m from (Action.neighbor priority r) now =
    elim (Option-cases (try_from h r)) [
      | inl e ↦ rw (e, violation, inject_action) (refl, refl)
      | inr (p, e) ↦ elim (Bool-cases (nat_eq p.peer_id from)) [
        | inl same ↦ rw (e, same, violation, inject_action) refl
        | inr other ↦ rw (e, other, violation, inject_action) (refl, refl)
      ]
    ]
inject_action-Answers h m from (Action.shuffle ttl r nodes) now =
    elim (Option-cases (try_from h r)) [
      | inl e ↦ rw (e, violation, inject_action) (refl, refl)
      | inr (p, e) ↦ rw (e, violation, inject_action) refl
    ]
inject_action-Answers h m from (Action.shuffle_reply nodes) now = refl
inject_action-Answers h m from (Action.disconnect alive) now = refl
inject_action-Answers h m from (Action.message id hop payload) now =
    elim (Option-cases (Tree.inject_message h m.tree from id hop payload now)) [
      | inl e ↦
          rw (e, violation, inject_action)
            (refl, inject_message-unreadable h m.tree from id hop payload now e)
      | inr (t, e) ↦ rw (e, violation, inject_action) refl
    ]
inject_action-Answers h m from (Action.ihave ihaves) now = refl
inject_action-Answers h m from Action.prune now = refl
inject_action-Answers h m from (Action.graft ids) now = refl

-- A mesh panics on a message without an action. It rejects any other message exactly when its action
-- violates the protocol, with that violation as the error, and is then left as it was; on these it
-- panics only if the payload does not decompress.
pub inject_rpc_call-Answers :
    (h : Host) (m : TopicMesh) (from : PeerId) (event : Rpc) (now : ℕ)
    → AnswersIf h m from event.action (inject_rpc_call h m from event now)
unfolding inject_rpc_call
inject_rpc_call-Answers h m from event now = elim (Option-cases event.action) [
  | inl missing ↦ rw (missing, inject_rpc_call) refl
  | inr (a, acts) ↦ rw (acts, inject_rpc_call) (inject_action-Answers h m from a now)
]
