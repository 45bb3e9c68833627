-- ===== src/Episub/Topics.antt =====
-- The topics of an Episub: which of its operations on the meshes keep them.
use irn.Base.{
  ℕ, String, ◌≡◌, refl, ◌||◌, Option, none, some, List, [], ◌∷◌, arith, Option-cases, Bool-cases,
  inl, inr, Eq-ℕ, Eq-String, map,
}
use irn.Base.Keyed.{contains, put, whole, contains-put}
use irn.Config.{Config}
use irn.Host.{Host}
use irn.Rpc.{PeerId, AddressablePeer, NetworkAction}
use irn.Topic
use irn.Topic.{TopicMesh, Outcome}
use irn.Episub.{Joined, Known, topic_key, joined, join_topics, join_pending, poll_meshes}
use irn.Episub.Address.{Eq-Multiaddr}

module _ (t : String) where
  -- Every pending topic gets a mesh, and no mesh is lost.
  pub contains-join_pending :
      (c : Config) (node : AddressablePeer) (now : ℕ) (ts : List String) (topics : List Joined)
      → contains topic_key t (join_pending c node now ts topics)
        ≡ (contains topic_key t topics || contains whole t ts)
  unfolding join_pending
  contains-join_pending c node now [] topics = ground arith
  contains-join_pending c node now (x ∷ ts) topics =
      elim (Bool-cases (contains topic_key x topics)) [
        | inl has ↦
            ground (arith, contains-join_pending c node now ts topics, Eq-String.beq_iff x t)
        | inr lacks ↦
            let mesh = joined x (Topic.new x c node now) in
            ground (
              arith,
              contains-join_pending c node now ts (put topic_key mesh topics),
              contains-put topic_key t mesh topics,
            )
      ]

  pub contains-map_meshes :
      (f : TopicMesh → TopicMesh) (js : List Joined)
      → contains topic_key t (map (λ j. joined j.topic (f j.mesh)) js) ≡ contains topic_key t js
  contains-map_meshes f [] = refl
  contains-map_meshes f (j ∷ js) = ground (arith, contains-map_meshes f js)

module _ (h : Host) (t : String) where
  pub contains-join_topics :
      (c : Config) (p : PeerId) (known : Option Known) (js : List Joined) {ts : List Joined}
      → join_topics h c p known js ≡ some ts
      → contains topic_key t ts ≡ contains topic_key t js
  unfolding join_topics
  contains-join_topics c p known [] e = ground arith
  contains-join_topics c p known (j ∷ js) {ts} e =
      elim (Option-cases (join_topics h c p known js)) [
        | inl r ↦ absurd (ground arith)
        | inr (us, r) ↦ ground (arith, contains-join_topics c p known js {ts = us} r)
      ]

  pub contains-poll_meshes :
      (js : List Joined) (now : ℕ) {a : Option NetworkAction} {ts : List Joined}
      → poll_meshes h js now ≡ some (a, ts)
      → contains topic_key t ts ≡ contains topic_key t js
  unfolding poll_meshes
  contains-poll_meshes [] now {a} {ts} r = ground arith
  contains-poll_meshes (j ∷ js) now {a} {ts} r = elim (Option-cases (Topic.poll h j.mesh now)) [
    | inl f ↦ absurd (ground arith)
    | inr ((some b, m), f) ↦ ground arith
    | inr ((none, m), f) ↦ elim (Option-cases (poll_meshes h js now)) [
      | inl g ↦ absurd (ground arith)
      | inr ((b, us), g) ↦ ground (arith, contains-poll_meshes js now {a = b} {ts = us} g)
    ]
  ]
