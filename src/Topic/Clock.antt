-- ===== src/Topic/Clock.antt =====
-- Histories of a TopicMesh whose clock runs forward.
use irn.Base.{
  ℕ, true, ◌*◌, ◌≤◌, ◌≡◌, refl, String, Option, none, some, List, [], ◌∷◌, Option-cases, inl, inr,
  Eq-ℕ,
}
use irn.Base.Keyed.{contains}
use irn.Cache
use irn.Config.{Config}
use irn.Host.{Host, IsLawful}
use irn.Rpc.{PeerId, AddressablePeer, NetworkAction}
use irn.Topic.{TopicMesh, new, disconnected, initiate_join, publish, inject_rpc_call, poll}
use irn.Topic.Calls.{Call, call, run}
use irn.Topic.Links.{run-links}
use irn.Topic.Progress.{IsSafeAction, MeshGoes, PollGoes, inject_action-MeshGoes, poll_own-PollGoes}
use irn.Tree
use irn.Tree.Links.{is_linked}
use irn.Tree.Progress.{IsCurrent, IsCurrent-later, publish-IsCurrent}
use irn.View.{peer_key}

abbrev pub IsSafe : Host → Config → Call → Type 0
IsSafe h c (Call.receives from event now) = IsSafeAction h c event.action
IsSafe h c _ = Unit

-- The time after a call.
abbrev pub clock : ℕ → Call → ℕ
clock then_ (Call.publishes id payload now) = now
clock then_ (Call.receives from event now) = now
clock then_ (Call.polls now) = now
clock then_ _ = then_

-- The clock does not run backwards, and the messages are safe.
abbrev pub IsOrderly : Host → Config → ℕ → List Call → Type 0
IsOrderly h c then_ [] = Unit
IsOrderly h c then_ (x ∷ rest) =
    (then_ ≤ clock then_ x) × IsSafe h c x × IsOrderly h c (clock then_ x) rest

module _ {h : Host} (laws : IsLawful h) (c : Config)
    (fits : 2 * c.tick_frequency ≤ c.lazy_push_window) where
  call-MeshGoes :
      (then_ : ℕ) (m : TopicMesh) (x : Call)
      → IsCurrent then_ c m.tree
      → then_ ≤ clock then_ x
      → IsSafe h c x
      → MeshGoes (clock then_ x) c (call h m x)
  unfolding call disconnected initiate_join publish inject_rpc_call poll
  call-MeshGoes then_ m (Call.loses peer alive) i le s = i
  call-MeshGoes then_ m (Call.joins peer) i le s = i
  call-MeshGoes then_ m (Call.publishes id payload now) i le s =
      publish-IsCurrent now m.tree (IsCurrent-later le m.tree i) id payload
  call-MeshGoes then_ m (Call.receives from event now) i le s = elim (Option-cases event.action) [
    | inl e ↦ absurd (rw (e, IsSafeAction) at s)
    | inr (a, e) ↦
        rw (e, call, inject_rpc_call)
          (inject_action-MeshGoes now h m from a (IsCurrent-later le m.tree i) (rw e at s))
  ]
  call-MeshGoes then_ m (Call.polls now) i le s =
      polled (poll h m now)
        (poll_own-PollGoes laws c fits now m m.out_events (IsCurrent-later le m.tree i))
    where
      polled :
          (o : Option (Option NetworkAction × TopicMesh))
          → PollGoes now c o
          → MeshGoes now c (elim o [ none ↦ none | some r ↦ some r.1 ])
      polled none j = absurd j
      polled (some (a, u)) j = j

  onward :
      (now : ℕ) (rest : List Call) (o : Option TopicMesh)
      → MeshGoes now c o
      → ((u : TopicMesh) → IsCurrent now c u.tree → (w : TopicMesh) × (run h u rest ≡ some w))
      → (w : TopicMesh) × ((elim o [ none ↦ none | some u ↦ run h u rest ]) ≡ some w)
  onward now rest none j f = absurd j
  onward now rest (some u) j f = f u j

  run-goes :
      (calls : List Call) (then_ : ℕ) (m : TopicMesh)
      → IsCurrent then_ c m.tree
      → IsOrderly h c then_ calls
      → (u : TopicMesh) × (run h m calls ≡ some u)
  unfolding run
  run-goes [] then_ m i r = (m, refl)
  run-goes (x ∷ rest) then_ m i (le, safe, orderly) =
      onward (clock then_ x) rest (call h m x) (call-MeshGoes then_ m x i le safe)
        (λ u j. run-goes rest (clock then_ x) u j orderly)

  -- Every history of a new mesh whose times do not run backwards and whose messages have an action and a
  -- payload that can be read goes through without a panic, if two ticks fit into the lazy push window;
  -- and once the view then has no event left to hand out, every member of the active view has a link in
  -- the tree, eager or lazy.
  pub run-linked :
      (topic : String) (local : AddressablePeer) (now : ℕ) (calls : List Call)
      → IsOrderly h c now calls
      → (m : TopicMesh) × (run h (new topic c local now) calls ≡ some m)
        × (m.nodes.out_events ≡ []
            → (k : PeerId) → contains peer_key k m.nodes.active ≡ true
            → is_linked m.tree k ≡ true)
  unfolding new Tree.new Cache.new
  run-linked topic local now calls orderly =
      let (m, e) =
        run-goes calls now (new topic c local now)
          (record {
            received_timely = (record { distinct = tt; agree = λ k. refl; sorted = tt }, tt);
            observed_timely = (record { distinct = tt; agree = λ k. refl; sorted = tt }, tt);
            configured = refl;
          })
          orderly in
      (m, e, run-links h topic c local now calls e)
