-- ===== src/Tree/Links.antt =====
-- The links of the tree: each peer is eager or lazy, and every call moves links between the two.
use irn.Base.{
  refl, Option, List, [], ◌∷◌, inl, inr, Option-cases, ℕ, ◌≡◌, Bool, false, ◌&&◌, ◌||◌, some,
  nat_eq, if◌then◌else◌, Eq-ℕ, arith, nat_eq_iff,
}
use irn.Base.Keyed.{contains, whole, contains-insert, contains-remove}
use irn.Cache.{MessageRecord, record_item, info_item}
use irn.Cache
use irn.Host.{Host}
use irn.Rpc.{PeerId, Bytes, NetworkAction}
use irn.Tree.{
  PlumTree, inject_neighbor_up, inject_neighbor_down, publish, inject_message, inject_ihave,
  inject_prune, inject_graft, prune_sender, poll, maintain, publish_ihaves, repair_tree,
  prune_history, pop_from,
}
use irn.Tree.Inputs.{Input, feed}

abbrev pub is_eager : PlumTree → PeerId → Bool
is_eager t k = contains whole k t.eager

abbrev pub is_lazy : PlumTree → PeerId → Bool
is_lazy t k = contains whole k t.lazy

abbrev pub is_linked : PlumTree → PeerId → Bool
is_linked t k = is_eager t k || is_lazy t k

-- The links that a call asks for: one more, one less, or the same.
abbrev pub asked : Input → PeerId → Bool → Bool
asked (Input.up p) k b = nat_eq p k || b
asked (Input.down p) k b = if nat_eq p k then false else b
asked (Input.prune p) k b = nat_eq p k || b
asked (Input.graft p ids) k b = nat_eq p k || b
asked _ k b = b

prune_sender-links :
    (t : PlumTree) (peer k : PeerId) → is_linked (prune_sender t peer) k ≡ is_linked t k
unfolding prune_sender inject_prune
prune_sender-links t peer k = ground (
  arith,
  contains-remove whole k peer t.eager,
  contains-insert whole k peer t.lazy,
  nat_eq_iff peer k,
)

publish-links :
    (t : PlumTree) (id : ℕ) (payload : Bytes) (now : ℕ) (k : PeerId)
    → is_linked (publish t id payload now) k ≡ is_linked t k
unfolding publish
publish-links t id payload now k = ground arith

inject_message-links :
    (h : Host) (t : PlumTree) (peer : PeerId) (id hop : ℕ) (payload : Bytes) (now : ℕ) (k : PeerId)
    {u : PlumTree}
    → inject_message h t peer id hop payload now ≡ some u
    → is_linked u k ≡ is_linked t k
unfolding inject_message
inject_message-links h t peer id hop payload now k {u} e =
    let m : MessageRecord = record { id = id; hop = hop; payload = payload; sender = peer } in
    let inserted = Cache.insert record_item t.received m now in
    ground (arith, prune_sender-links (record t { received = inserted.0 }) peer k)

-- A call links exactly the peers that it asks for, eager or lazy: one comes with NeighborUp, PRUNE and
-- GRAFT, one goes with NeighborDown, and messages and announcements leave the set of links as it is.
pub feed-links :
    (h : Host) (t : PlumTree) (i : Input) (k : PeerId) {u : PlumTree}
    → feed h t i ≡ some u
    → is_linked u k ≡ asked i k (is_linked t k)
unfolding feed inject_neighbor_up inject_neighbor_down inject_prune inject_graft inject_ihave
feed-links h t (Input.up p) k e = ground (arith, contains-insert whole k p t.eager)
feed-links h t (Input.down p) k e =
    ground (arith, contains-remove whole k p t.eager, contains-remove whole k p t.lazy)
feed-links h t (Input.prune p) k e =
    ground
      (arith, contains-remove whole k p t.eager, contains-insert whole k p t.lazy, nat_eq_iff p k)
feed-links h t (Input.publishes id payload now) k e =
    ground (arith, publish-links t id payload now k)
feed-links h t (Input.message peer id hop payload now) k e =
    inject_message-links h t peer id hop payload now k e
feed-links h t (Input.ihave peer id hop now) k e = ground arith
feed-links h t (Input.graft p ids) k e =
    ground
      (arith, contains-insert whole k p t.eager, contains-remove whole k p t.lazy, nat_eq_iff p k)

-- No peer is both eager and lazy.
abbrev pub AreApart : PlumTree → Type 0
AreApart t = (k : PeerId) → (is_eager t k && is_lazy t k) ≡ false

-- The new neighbour, if the call brings one, has no lazy link yet.
abbrev pub IsNewLink : PlumTree → Input → Type 0
IsNewLink t (Input.up p) = is_lazy t p ≡ false
IsNewLink t _ = Unit

prune_sender-AreApart : (t : PlumTree) (peer : PeerId) → AreApart t → AreApart (prune_sender t peer)
unfolding prune_sender inject_prune
prune_sender-AreApart t peer a k = ground (
  arith,
  contains-remove whole k peer t.eager,
  contains-insert whole k peer t.lazy,
  nat_eq_iff peer k,
  a k,
)

-- No call makes a peer both eager and lazy, except a NeighborUp of a peer that is lazy already.
pub feed-AreApart :
    (h : Host) (t : PlumTree) (i : Input) {u : PlumTree}
    → AreApart t
    → IsNewLink t i
    → feed h t i ≡ some u
    → AreApart u
unfolding feed inject_neighbor_up inject_neighbor_down inject_prune inject_graft inject_ihave
    inject_message publish
feed-AreApart h t (Input.up p) a n e k =
    ground (arith, contains-insert whole k p t.eager, nat_eq_iff p k, a k)
feed-AreApart h t (Input.down p) a n e k =
    ground (arith, contains-remove whole k p t.eager, contains-remove whole k p t.lazy, a k)
feed-AreApart h t (Input.prune p) a n e k = ground (
  arith,
  contains-remove whole k p t.eager,
  contains-insert whole k p t.lazy,
  nat_eq_iff p k,
  a k,
)
feed-AreApart h t (Input.publishes id payload now) a n e k = ground (arith, a k)
feed-AreApart h t (Input.message peer id hop payload now) a n e k =
    let m : MessageRecord = record { id = id; hop = hop; payload = payload; sender = peer } in
    let inserted = Cache.insert record_item t.received m now in
    ground (arith, prune_sender-AreApart (record t { received = inserted.0 }) peer a k, a k)
feed-AreApart h t (Input.ihave peer id hop now) a n e k = ground (arith, a k)
feed-AreApart h t (Input.graft p ids) a n e k = ground (
  arith,
  contains-insert whole k p t.eager,
  contains-remove whole k p t.lazy,
  nat_eq_iff p k,
  a k,
)

-- The second tree has the links of the first.
pub record SameLinks (t u : PlumTree) : Type 0 where
  pub eager_links : u.eager ≡ t.eager
  pub lazy_links : u.lazy ≡ t.lazy

pop_from-SameLinks :
    (t : PlumTree) (actions : List NetworkAction) → SameLinks t (pop_from t actions).1
unfolding pop_from
pop_from-SameLinks t [] = record { eager_links = refl; lazy_links = refl }
pop_from-SameLinks t (a ∷ rest) = record { eager_links = refl; lazy_links = refl }

module _ (h : Host) (now : ℕ) where
  publish_ihaves-SameLinks :
      (t : PlumTree) {u : PlumTree} → publish_ihaves h t now ≡ some u → SameLinks t u
  unfolding publish_ihaves
  publish_ihaves-SameLinks t e = record { eager_links = ground arith; lazy_links = ground arith }

  repair_tree-SameLinks :
      (t : PlumTree) {u : PlumTree} → repair_tree h t now ≡ some u → SameLinks t u
  unfolding repair_tree prune_history
  repair_tree-SameLinks t e = record { eager_links = ground arith; lazy_links = ground arith }

  maintain-SameLinks : (t : PlumTree) {u : PlumTree} → maintain h t now ≡ some u → SameLinks t u
  unfolding maintain
  maintain-SameLinks t {u} e = elim (Option-cases (publish_ihaves h t now)) [
    | inl f ↦ record { eager_links = ground arith; lazy_links = ground arith }
    | inr (v, f) ↦
        let a = publish_ihaves-SameLinks t f in
        elim (Option-cases (repair_tree h v now)) [
          | inl g ↦ record { eager_links = ground arith; lazy_links = ground arith }
          | inr (w, g) ↦
              let b = repair_tree-SameLinks v g in
              record {
                eager_links = ground (arith, a.eager_links, b.eager_links);
                lazy_links = ground (arith, a.lazy_links, b.lazy_links);
              }
        ]
  ]

  -- A poll leaves every link as it is.
  pub poll-SameLinks :
      (t : PlumTree) {a : Option NetworkAction} {u : PlumTree}
      → poll h t now ≡ some (a, u)
      → SameLinks t u
  unfolding poll
  poll-SameLinks t {a} {u} e = elim (Option-cases (maintain h t now)) [
    | inl f ↦ record { eager_links = ground arith; lazy_links = ground arith }
    | inr (w, f) ↦
        let s = maintain-SameLinks t f in
        let p = pop_from-SameLinks w w.out_events in
        record {
          eager_links = ground (arith, s.eager_links, p.eager_links);
          lazy_links = ground (arith, s.lazy_links, p.lazy_links);
        }
  ]
