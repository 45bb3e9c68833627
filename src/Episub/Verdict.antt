-- ===== src/Episub/Verdict.antt =====
-- Whom a node bans for an event, and which topics an event can touch.
use irn.Base.{
  ℕ, ◌≡◌, Bool, true, false, not, ◌&&◌, ◌||◌, Option, none, some, [], ◌∷◌, nat_eq, nat_eq_iff,
  arith, Option-cases, inl, inr, Eq-ℕ, Eq-String, if_elim,
}
use irn.Base.Keyed.{contains, find, whole, contains-insert, contains-find}
use irn.Host.{Host}
use irn.Rpc.{PeerId, Action, Rpc}
use irn.Episub.{
  Episub, topic_key, ban_peer, force_disconnect, emit_all, disconnect_on, settle, inject_event,
}
use irn.Topic.{TopicMesh, Outcome, inject_action, inject_rpc_call}
use irn.Topic.Routing.{IsUnreadable, violation, Answers, inject_action-Answers}

-- Whether an event breaks the protocol: it has no action, or its topic is subscribed to and the
-- action is one that the topic's mesh turns down.
abbrev pub is_violation : Host → Episub → PeerId → Rpc → Bool
is_violation h e peer event = elim event.action [
  | none ↦ true
  | some a ↦
      contains topic_key event.topic e.topics
      && elim (violation h peer a) [ none ↦ false | some error ↦ true ]
]

-- A peer is banned if it was before, or is the sender of an authorized event that breaks the
-- protocol.
abbrev pub IsJudged : Host → Episub → PeerId → Rpc → Episub → Type 0
IsJudged h e peer event u =
    (k : PeerId)
    → contains whole k u.banned_peers ≡ (
        contains whole k e.banned_peers
        || (nat_eq peer k && (e.config.authorizer event.topic peer && is_violation h e peer event)))

-- The node after the event, or a panic on a payload that does not decompress.
abbrev pub Verdict : Host → Episub → PeerId → Rpc → Option Episub → Type 0
Verdict h e peer event none = (a : Action) × (event.action ≡ some a) × IsUnreadable h a
Verdict h e peer event (some u) = IsJudged h e peer event u

module _ (h : Host) (e : Episub) (peer : PeerId) (connection : ℕ) (event : Rpc) (now : ℕ) where
  settle-judged :
      (a : Action) (m : TopicMesh) (o : Outcome)
      → event.action ≡ some a
      → e.config.authorizer event.topic peer ≡ true
      → contains topic_key event.topic e.topics ≡ true
      → Answers h m a (violation h peer a) o
      → Verdict h e peer event (settle e peer connection event.topic o)
  unfolding settle ban_peer force_disconnect
  settle-judged a m (Outcome.ingested u) acts allowed known v = λ k. ground (arith, v)
  settle-judged a m (Outcome.rejected violation_ u) acts allowed known v =
      λ k. ground (arith, v.0, contains-insert whole k peer e.banned_peers)
  settle-judged a m Outcome.panicked acts allowed known v = (a, acts, v.1)

  action-judged :
      (a : Action)
      → event.action ≡ some a
      → e.config.authorizer event.topic peer ≡ true
      → Verdict h e peer event (elim (find topic_key event.topic e.topics) [
        | some j ↦ settle e peer connection event.topic (inject_rpc_call h j.mesh peer event now)
        | none ↦
            some
              (force_disconnect (emit_all e (disconnect_on event.topic peer ∷ [])) peer connection)
      ])
  unfolding inject_rpc_call force_disconnect
  action-judged a acts allowed =
      let known = contains-find topic_key event.topic e.topics in
      elim (Option-cases (find topic_key event.topic e.topics)) [
        | inl missing ↦ rw missing (λ k. ground arith)
        | inr (j, found) ↦
            simp (found, acts, inject_rpc_call)
              (settle-judged a j.mesh (inject_action h j.mesh peer a now) acts allowed
                (ground arith) (inject_action-Answers h j.mesh peer a now))
      ]

  -- After an event, a peer is banned exactly if it was banned before, or it is the sender of the event
  -- and is authorized on its topic, and the event has no action or has one that the mesh of a
  -- subscribed topic turns down. The node panics only on a payload that does not decompress.
  pub inject_event-Verdict : Verdict h e peer event (inject_event h e peer connection event now)
  unfolding inject_event force_disconnect ban_peer
  inject_event-Verdict =
      let V = Verdict h e peer event in
      if_elim V (contains whole peer e.banned_peers) (λ banned k. ground (arith, nat_eq_iff peer k))
        λ fresh.
          if_elim V (not (e.config.authorizer event.topic peer)) (λ barred k. ground arith)
            λ allowed. elim (Option-cases event.action) [
              | inl empty ↦
                  simp empty (λ k. ground (arith, contains-insert whole k peer e.banned_peers))
              | inr (a, acts) ↦ simp acts (action-judged a acts (ground arith))
            ]
