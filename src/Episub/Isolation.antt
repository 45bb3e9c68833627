-- ===== src/Episub/Isolation.antt =====
-- Topics are isolated clusters: what an event can change.
use irn.Base.{
  ℕ, ◌≡◌, ◌≢◌, refl, String, not, Option, none, some, sym, ◌∙◌, Option-cases, inl, inr, Eq-ℕ,
  Eq-String, if_elim, beq_of_ne,
}
use irn.Base.Keyed.{contains, find, whole, find-put}
use irn.Host.{Host}
use irn.Rpc.{PeerId, Rpc}
use irn.Topic.{Outcome}
use irn.Topic
use irn.Episub.{Episub, topic_key, joined, settle, ban_peer, force_disconnect, inject_event}

-- The second node has the mesh of the first on a topic, or none if that has none.
abbrev SameMesh : String → Episub → Option Episub → Type 0
SameMesh t e none = Unit
SameMesh t e (some u) = find topic_key t u.topics ≡ find topic_key t e.topics

module _ (h : Host) (e : Episub) (peer : PeerId) (connection : ℕ) (event : Rpc) (now : ℕ)
    (t : String) where
  settle-SameMesh :
      (o : Outcome) → t ≢ event.topic → SameMesh t e (settle e peer connection event.topic o)
  unfolding settle ban_peer force_disconnect
  settle-SameMesh (Outcome.ingested m) other =
      find-put topic_key t (joined event.topic m) e.topics
      ∙ rw (beq_of_ne event.topic t (λ q. other (sym q))) refl
  settle-SameMesh (Outcome.rejected violation m) other =
      find-put topic_key t (joined event.topic m) e.topics
      ∙ rw (beq_of_ne event.topic t (λ q. other (sym q))) refl
  settle-SameMesh Outcome.panicked other = tt

  -- An event on one topic leaves the mesh of every other topic as it is.
  pub inject_event-isolated :
      {u : Episub}
      → t ≢ event.topic
      → inject_event h e peer connection event now ≡ some u
      → find topic_key t u.topics ≡ find topic_key t e.topics
  unfolding inject_event ban_peer force_disconnect
  inject_event-isolated {u} other r =
      let same : SameMesh t e (inject_event h e peer connection event now) =
        if_elim (SameMesh t e) (contains whole peer e.banned_peers) (λ _. refl)
          λ _.
            if_elim (SameMesh t e) (not (e.config.authorizer event.topic peer)) (λ _. refl)
              λ _. elim (Option-cases event.action) [
                | inl empty ↦ simp empty refl
                | inr (a, acts) ↦ elim (Option-cases (find topic_key event.topic e.topics)) [
                  | inl missing ↦ simp (acts, missing) refl
                  | inr (j, found) ↦
                      simp (acts, found)
                        (settle-SameMesh (Topic.inject_rpc_call h j.mesh peer event now) other)
                ]
              ] in
      simp r at same
