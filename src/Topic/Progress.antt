-- ===== src/Topic/Progress.antt =====
-- A mesh whose clock runs forward never panics on messages that can be read.
use irn.Base.{
  ℕ, ◌*◌, ◌≤◌, ◌≡◌, refl, Option, none, some, List, [], ◌∷◌, nat_eq, Option-cases, Bool-cases, inl,
  inr,
}
use irn.Config.{Config}
use irn.Host.{Host, IsLawful}
use irn.Rpc.{PeerId, Bytes, MessageRef, Action, NetworkAction, EpisubEvent}
use irn.Topic.{TopicMesh, inject_ihaves, inject_action, tell_tree, poll_tree, poll_nodes, poll_own}
use irn.Topic.Calls.{mesh_of}
use irn.Tree
use irn.Tree.{PlumTree, delivered_payload}
use irn.Tree.Progress.{
  IsCurrent, Goes, GoesOn, inject_ihave-IsCurrent, inject_message-Goes, poll-GoesOn,
}
use irn.View
use irn.View.{peer_key, try_from}

-- The message carries an action, whose payload, if it has one, can be read.
abbrev pub IsSafeAction : Host → Config → Option Action → Type 0
IsSafeAction h c none = ⊥
IsSafeAction h c (some (Action.message id hop payload)) =
    (out : Bytes) × (delivered_payload h c payload ≡ some out)
IsSafeAction h c (some a) = Unit

abbrev pub MeshGoes : ℕ → Config → Option TopicMesh → Type 0
MeshGoes now c none = ⊥
MeshGoes now c (some m) = IsCurrent now c m.tree

abbrev pub PollGoes : ℕ → Config → Option (Option NetworkAction × TopicMesh) → Type 0
PollGoes now c none = ⊥
PollGoes now c (some (a, m)) = IsCurrent now c m.tree

-- Links do not matter to the caches.
pub relinked :
    {c : Config} {now : ℕ} (t u : PlumTree)
    → u.received ≡ t.received
    → u.observed ≡ t.observed
    → u.config ≡ t.config
    → IsCurrent now c t
    → IsCurrent now c u
relinked t u r o k i = record {
  received_timely = rw r i.received_timely;
  observed_timely = rw o i.observed_timely;
  configured = rw k i.configured;
}

module _ {c : Config} (now : ℕ) where
  inject_ihaves-IsCurrent :
      (ihaves : List MessageRef) (t : PlumTree) (peer : PeerId)
      → IsCurrent now c t
      → IsCurrent now c (inject_ihaves t peer ihaves now)
  unfolding inject_ihaves
  inject_ihaves-IsCurrent [] t peer i = i
  inject_ihaves-IsCurrent (m ∷ rest) t peer i =
      inject_ihaves-IsCurrent rest (Tree.inject_ihave t peer m.id m.hop now) peer
        (inject_ihave-IsCurrent now t i peer m.id m.hop)

  tell_tree-IsCurrent :
      (a : NetworkAction) (t : PlumTree) → IsCurrent now c t → IsCurrent now c (tell_tree a t)
  unfolding tell_tree Tree.inject_neighbor_up Tree.inject_neighbor_down
  tell_tree-IsCurrent (NetworkAction.generate_event (EpisubEvent.peer_added p)) t i =
      relinked t _ refl refl refl i
  tell_tree-IsCurrent (NetworkAction.generate_event (EpisubEvent.peer_removed p)) t i =
      relinked t _ refl refl refl i
  tell_tree-IsCurrent (NetworkAction.generate_event (EpisubEvent.message_received x y z)) t i = i
  tell_tree-IsCurrent (NetworkAction.generate_event (EpisubEvent.subscribed x)) t i = i
  tell_tree-IsCurrent (NetworkAction.generate_event (EpisubEvent.unsubscribed x)) t i = i
  tell_tree-IsCurrent (NetworkAction.notify_handler x y) t i = i
  tell_tree-IsCurrent (NetworkAction.dial x y z w) t i = i
  tell_tree-IsCurrent (NetworkAction.close_connection x y) t i = i

  pub inject_action-MeshGoes :
      (h : Host) (m : TopicMesh) (from : PeerId) (a : Action)
      → IsCurrent now c m.tree
      → IsSafeAction h c (some a)
      → MeshGoes now c (mesh_of (inject_action h m from a now))
  unfolding inject_action Tree.inject_prune Tree.inject_graft
  inject_action-MeshGoes h m from (Action.join ttl r) i s = elim (Option-cases (try_from h r)) [
    | inl e ↦ rw (e, inject_action) i
    | inr (p, e) ↦ rw (e, inject_action) i
  ]
  inject_action-MeshGoes h m from (Action.forward_join ttl r) i s =
      elim (Option-cases (try_from h r)) [
        | inl e ↦ rw (e, inject_action) i
        | inr (p, e) ↦ rw (e, inject_action) i
      ]
  inject_action-MeshGoes h m from (Action.neighbor priority r) i s =
      elim (Option-cases (try_from h r)) [
        | inl e ↦ rw (e, inject_action) i
        | inr (p, e) ↦ elim (Bool-cases (nat_eq p.peer_id from)) [
          | inl same ↦ rw (e, same, inject_action) i
          | inr other ↦ rw (e, other, inject_action) i
        ]
      ]
  inject_action-MeshGoes h m from (Action.shuffle ttl r nodes) i s =
      elim (Option-cases (try_from h r)) [
        | inl e ↦ rw (e, inject_action) i
        | inr (p, e) ↦ rw (e, inject_action) i
      ]
  inject_action-MeshGoes h m from (Action.shuffle_reply nodes) i s = i
  inject_action-MeshGoes h m from (Action.disconnect alive) i s = i
  inject_action-MeshGoes h m from (Action.message id hop payload) i s =
      elim (Option-cases (Tree.inject_message h m.tree from id hop payload now)) [
        | inl e ↦
            absurd
              (rw (e, Goes) at (inject_message-Goes h now m.tree i from id hop payload s.0 s.1))
        | inr (t, e) ↦
            rw (e, inject_action)
              (rw (e, Goes) at (inject_message-Goes h now m.tree i from id hop payload s.0 s.1))
      ]
  inject_action-MeshGoes h m from (Action.ihave ihaves) i s =
      inject_ihaves-IsCurrent ihaves m.tree from i
  inject_action-MeshGoes h m from Action.prune i s = relinked m.tree _ refl refl refl i
  inject_action-MeshGoes h m from (Action.graft ids) i s = relinked m.tree _ refl refl refl i

module _ {h : Host} (laws : IsLawful h) (c : Config)
    (fits : 2 * c.tick_frequency ≤ c.lazy_push_window) where
  pub poll_own-PollGoes :
      (now : ℕ) (m : TopicMesh) (own : List NetworkAction)
      → IsCurrent now c m.tree
      → PollGoes now c (poll_own h m now own)
  unfolding poll_own poll_nodes poll_tree
  poll_own-PollGoes now m (a ∷ rest) i = i
  poll_own-PollGoes now m [] i = told (View.poll h m.nodes now).0
    where
      onward :
          (v : View.HyParView) (o : Option (Option NetworkAction × PlumTree))
          → GoesOn now c o
          → PollGoes now c
              (elim o [ none ↦ none | some (a, t) ↦ some (a, record m { nodes = v; tree = t }) ])
      onward v none j = absurd j
      onward v (some (a, t)) j = j

      told :
          (o : Option NetworkAction)
          → PollGoes now c (elim o [
            | some a ↦ some (
              some a,
              record m { nodes = (View.poll h m.nodes now).1; tree = tell_tree a m.tree },
            )
            | none ↦ poll_tree h (record m { nodes = (View.poll h m.nodes now).1 }) now
          ])
      told (some a) = tell_tree-IsCurrent now a m.tree i
      told none =
          onward (View.poll h m.nodes now).1 (Tree.poll h m.tree now)
            (poll-GoesOn laws c fits now m.tree i)
