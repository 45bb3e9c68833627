-- ===== src/Episub/Crashing.antt =====
-- Which events of a connection crash the node: from the behaviour through the mesh to the tree.
use irn.Base.{
  ℕ, ◌≡◌, ◌↔◌, true, false, none, some, arith, Option-cases, inl, inr, Eq-String, Eq-ℕ, String,
  subst,
}
use irn.Base.Keyed.{contains, find, whole}
use irn.Cache.{record_item}
use irn.Cache
use irn.Cache.Lookup.{insert-answer}
use irn.Episub.{Episub, Joined, topic_key, inject_event, settle}
use irn.Host.{Host}
use irn.Rpc.{PeerId, Bytes, Action, Rpc}
use irn.Topic.Routing.{Answers, IsUnreadable, violation, inject_action-Answers}
use irn.Topic.{TopicMesh, Outcome, inject_action, inject_rpc_call}
use irn.Tree.{PlumTree, inject_message, delivered_payload}

-- The tree has no such message, and takes its payload for compressed, but it does not decompress.
abbrev pub IsPoisonous : Host → PlumTree → ℕ → Bytes → Type 0
IsPoisonous h t id payload =
    (Cache.get record_item t.received id ≡ none)
    × (t.config.enable_compression ≡ true)
    × (h.decode_all payload ≡ none)

inject_message-crashes :
    (h : Host) (t : PlumTree) (from : PeerId) (id hop : ℕ) (payload : Bytes) (now : ℕ)
    → (inject_message h t from id hop payload now ≡ none) ↔ IsPoisonous h t id payload
unfolding inject_message delivered_payload
inject_message-crashes h t from id hop payload now = ground (
  arith,
  insert-answer record_item t.received
      (record { id = id; hop = hop; payload = payload; sender = from }) now,
)

-- The same of an action; only a message can be poisonous.
abbrev pub IsPoison : Host → PlumTree → Action → Type 0
IsPoison h t (Action.message id hop payload) = IsPoisonous h t id payload
IsPoison h t _ = ⊥

harmless :
    (h : Host) (m : TopicMesh) (from : PeerId) (a : Action) (now : ℕ)
    → (IsUnreadable h a → ⊥)
    → (inject_action h m from a now ≡ Outcome.panicked) ↔ ⊥
harmless h m from a now readable = (
  λ e.
      let answer : Answers h m a (violation h from a) Outcome.panicked =
        subst (Answers h m a (violation h from a)) e (inject_action-Answers h m from a now) in
      readable answer.1,
  λ none_. absurd none_,
)

inject_action-crashes :
    (h : Host) (m : TopicMesh) (from : PeerId) (a : Action) (now : ℕ)
    → (inject_action h m from a now ≡ Outcome.panicked) ↔ IsPoison h m.tree a
unfolding inject_action
inject_action-crashes h m from (Action.message id hop payload) now =
    ground (arith, inject_message-crashes h m.tree from id hop payload now)
inject_action-crashes h m from (Action.join ttl r) now =
    harmless h m from (Action.join ttl r) now (λ bad. bad)
inject_action-crashes h m from (Action.forward_join ttl r) now =
    harmless h m from (Action.forward_join ttl r) now (λ bad. bad)
inject_action-crashes h m from (Action.neighbor priority r) now =
    harmless h m from (Action.neighbor priority r) now (λ bad. bad)
inject_action-crashes h m from (Action.shuffle ttl r nodes) now =
    harmless h m from (Action.shuffle ttl r nodes) now (λ bad. bad)
inject_action-crashes h m from (Action.shuffle_reply nodes) now =
    harmless h m from (Action.shuffle_reply nodes) now (λ bad. bad)
inject_action-crashes h m from (Action.disconnect alive) now =
    harmless h m from (Action.disconnect alive) now (λ bad. bad)
inject_action-crashes h m from (Action.ihave ihaves) now =
    harmless h m from (Action.ihave ihaves) now (λ bad. bad)
inject_action-crashes h m from Action.prune now = harmless h m from Action.prune now (λ bad. bad)
inject_action-crashes h m from (Action.graft ids) now =
    harmless h m from (Action.graft ids) now (λ bad. bad)

settle-crashes :
    (e : Episub) (p : PeerId) (connection : ℕ) (topic : String) (o : Outcome)
    → (settle e p connection topic o ≡ none) ↔ (o ≡ Outcome.panicked)
unfolding settle
settle-crashes e p connection topic (Outcome.ingested m) = ground arith
settle-crashes e p connection topic (Outcome.rejected violation_ m) = ground arith
settle-crashes e p connection topic Outcome.panicked = ground arith

-- The event that crashes a node: the peer is not banned and may speak on the topic, and the action is a
-- poisonous one for the mesh of the topic.
pub record IsCrash (h : Host) (e : Episub) (peer : PeerId) (event : Rpc) : Type 0 where
  pub welcome : contains whole peer e.banned_peers ≡ false
  pub authorized : e.config.authorizer event.topic peer ≡ true
  pub action : Action
  pub acts : event.action ≡ some action
  pub place : Joined
  pub meshed : find topic_key event.topic e.topics ≡ some place
  pub poison : IsPoison h place.mesh.tree action

module _ (h : Host) (e : Episub) (peer : PeerId) (connection : ℕ) (event : Rpc) (now : ℕ) where
  panicked-IsCrash : inject_event h e peer connection event now ≡ none → IsCrash h e peer event
  unfolding inject_event inject_rpc_call
  panicked-IsCrash crash =
      let welcome : contains whole peer e.banned_peers ≡ false = ground arith in
      let authorized : e.config.authorizer event.topic peer ≡ true = ground arith in
      elim (Option-cases event.action) [
        | inl empty ↦ absurd (ground arith)
        | inr (a, acts) ↦ elim (Option-cases (find topic_key event.topic e.topics)) [
          | inl missing ↦ absurd (ground arith)
          | inr (j, meshed) ↦
              let failed : settle e peer connection event.topic
                    (inject_rpc_call h j.mesh peer event now)
                  ≡ none =
                ground arith in
              let panicked : inject_action h j.mesh peer a now ≡ Outcome.panicked = ground (
                arith,
                settle-crashes e peer connection event.topic
                    (inject_rpc_call h j.mesh peer event now),
              ) in
              record {
                welcome = welcome;
                authorized = authorized;
                action = a;
                acts = acts;
                place = j;
                meshed = meshed;
                poison = (inject_action-crashes h j.mesh peer a now).0 panicked;
              }
        ]
      ]

  crashes : IsCrash h e peer event → inject_event h e peer connection event now ≡ none
  unfolding inject_event inject_rpc_call
  crashes i =
      let panicked : inject_action h i.place.mesh peer i.action now ≡ Outcome.panicked =
        (inject_action-crashes h i.place.mesh peer i.action now).1 i.poison in
      let failed : settle e peer connection event.topic
            (inject_rpc_call h i.place.mesh peer event now)
          ≡ none =
        ground (
          arith,
          i.acts,
          settle-crashes e peer connection event.topic
              (inject_rpc_call h i.place.mesh peer event now),
        ) in
      ground (arith, i.welcome, i.authorized, i.acts, i.meshed)

  -- An event of a connection crashes the node exactly if it is a message that the tree of its topic has
  -- not received and whose payload does not decompress, while that tree takes payloads for compressed;
  -- and its sender is not banned and is authorised on the topic. No other event is a panic.
  pub inject_event-crashes :
      (inject_event h e peer connection event now ≡ none) ↔ IsCrash h e peer event
  inject_event-crashes = (panicked-IsCrash, crashes)
