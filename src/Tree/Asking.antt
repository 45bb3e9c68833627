-- ===== src/Tree/Asking.antt =====
-- PlumTree::repair_tree of src/network/episub/tree.rs: whom a repair asks for which messages.
use irn.Base.{
  ℕ, zero, suc, ◌-◌, ◌*◌, ◌<◌, ◌≤◌, ◌≡◌, refl, ap, ◌∙◌, Bool, true, false, ◌&&◌, ◌||◌, Option, some,
  List, [], ◌∷◌, ◌++◌, map, get_elem?, get_elem?-map, nat_eq, nat_eq_iff, arith, Bool-cases, inl,
  inr, Eq-ℕ,
}
use irn.Base.Keyed.{contains, contains-append, whole, of_list, of_list-Distinct, Distinct}
use irn.Cache.{MessageInfo, Timed, info_item, iter_range}
use irn.Cache.Expiry.{IsValid}
use irn.Cache.Order.{iter_range_lem, iter_range-arrived}
use irn.Cache.Range.{iter_range-Distinct}
use irn.Host.{Host, IsLawful}
use irn.Rpc.{PeerId, Action, NetworkAction}
use irn.Tree.{PlumTree, Grafts, consider_all, notify, emit_all, repair_tree, prune_history}
use irn.Tree.Repair.{IsMissing, asked_of, calls_for, called_for, consider_all-asks}

-- The messages that an action asks for.
abbrev pub grafted : Option Action → List ℕ
grafted (some (Action.graft ids)) = ids
grafted _ = []

-- Whether the queue has a GRAFT that asks the peer for the message.
abbrev pub asks : PeerId → ℕ → List NetworkAction → Bool
asks p id [] = false
asks p id (NetworkAction.notify_handler q event ∷ rest) =
    (nat_eq q p && contains whole id (grafted event.action)) || asks p id rest
asks p id (_ ∷ rest) = asks p id rest

module _ (p : PeerId) (id : ℕ) where
  asks-append : (xs ys : List NetworkAction) → asks p id (xs ++ ys) ≡ (asks p id xs || asks p id ys)
  asks-append [] ys = refl
  asks-append (NetworkAction.notify_handler q event ∷ rest) ys = ground (arith, asks-append rest ys)
  asks-append (NetworkAction.dial peer addresses max_ temporary ∷ rest) ys = asks-append rest ys
  asks-append (NetworkAction.generate_event event ∷ rest) ys = asks-append rest ys
  asks-append (NetworkAction.close_connection peer connection ∷ rest) ys = asks-append rest ys

  asks-grafts :
      (t : PlumTree) (grafts : Grafts)
      → asks p id (map (λ g. notify t (Action.graft g.1) g.0) grafts)
        ≡ contains whole id (asked_of p grafts)
  asks-grafts t [] = refl
  asks-grafts t ((q, ids) ∷ rest) =
      ground (arith, asks-grafts t rest, contains-append whole id ids (asked_of p rest))

  called_for-found :
      (t : PlumTree) (vs : List MessageInfo) (j : ℕ) {v : MessageInfo}
      → get_elem? vs j ≡ some v
      → v.sender ≡ p
      → v.id ≡ id
      → IsMissing t id
      → called_for t p id vs ≡ true
  called_for-found t [] j e by_ of_ missing = cc
  called_for-found t (v ∷ vs) zero e by_ of_ missing =
      ground (arith, nat_eq_iff v.sender p, nat_eq_iff v.id id)
  called_for-found t (v ∷ vs) (suc j) e by_ of_ missing =
      ground (arith, called_for-found t vs j e by_ of_ missing)

  found-called_for :
      (t : PlumTree) (vs : List MessageInfo)
      → called_for t p id vs ≡ true
      → IsMissing t id
        × (j : ℕ) × (v : MessageInfo) × (get_elem? vs j ≡ some v)
        × (v.sender ≡ p)
        × (v.id ≡ id)
  found-called_for t [] e = cc
  found-called_for t (v ∷ vs) e = elim (Bool-cases (calls_for t p id v)) [
    | inl here ↦
        let missing : IsMissing t id = ground arith in
        let by_ : v.sender ≡ p = ground (arith, nat_eq_iff v.sender p) in
        let of_ : v.id ≡ id = ground (arith, nat_eq_iff v.id id) in
        (missing, zero, v, refl, by_, of_)
    | inr not_here ↦
        let (missing, j, w, at, by_, of_) = found-called_for t vs (ground arith) in
        (missing, suc j, w, at, by_, of_)
  ]

  announced : (a b : MessageInfo) → a ≡ b → b.sender ≡ p → b.id ≡ id → (a.sender ≡ p) × (a.id ≡ id)
  announced a b same by_ of_ = rw same (by_, of_)

  -- The queue after a repair, by the announcements that it reads.
  asks-repair_tree :
      (h : Host) (t : PlumTree) (now : ℕ) {vs : List MessageInfo}
      → Distinct info_item.key vs
      → iter_range info_item h t.observed
          (now - t.config.lazy_push_window)
          (now - 2 * t.config.tick_frequency)
        ≡ some vs
      → (u : PlumTree) × (repair_tree h t now ≡ some u)
        × (asks p id u.out_events ≡ (asks p id t.out_events || called_for t p id vs))
  unfolding repair_tree prune_history
  asks-repair_tree h t now {vs} d e =
      let grafts = consider_all t (of_list (λ (m : MessageInfo). m.id) vs) [] in
      let sent = map (λ g. notify t (Action.graft g.1) g.0) grafts in
      (
        prune_history (emit_all t sent) now,
        rw (e, repair_tree) refl,
        asks-append t.out_events sent
            ∙ ap (◌||◌ (asks p id t.out_events)) (
                asks-grafts t grafts
                ∙ (consider_all-asks t p id (of_list (λ (m : MessageInfo). m.id) vs)
                    ∙ ap (called_for t p id) (of_list-Distinct (λ (m : MessageInfo). m.id) vs d))),
      )

module _ {h : Host} (laws : IsLawful h) where
  -- In a tree with a valid cache of announcements, and with a window that spans two ticks, a repair
  -- goes through. If a message is missing whose first announcement in the cache arrived within the
  -- window and before the last two ticks, then a GRAFT that asks the announcing peer for the message
  -- is queued.
  pub repair_tree-asks :
      (t : PlumTree) (now i : ℕ) (o : Timed MessageInfo)
      → IsValid info_item t.observed
      → 2 * t.config.tick_frequency ≤ t.config.lazy_push_window
      → get_elem? t.observed.by_time i ≡ some o
      → now - t.config.lazy_push_window < o.time
      → o.time < now - 2 * t.config.tick_frequency
      → IsMissing t o.value.id
      → (u : PlumTree) × (repair_tree h t now ≡ some u)
        × (asks o.value.sender o.value.id u.out_events ≡ true)
  repair_tree-asks t now i o valid fits at after before missing =
      let start = now - t.config.lazy_push_window in
      let end = now - 2 * t.config.tick_frequency in
      let (ts, read, inside, finds) =
        iter_range_lem laws info_item t.observed start end valid.sorted (omega arith) in
      let (j, found) = finds i o at after before in
      let infos = map (λ r. r.value) ts in
      let d = iter_range-Distinct info_item h t.observed start end valid.distinct read in
      let (u, repaired, queued) = asks-repair_tree o.value.sender o.value.id h t now d read in
      let called : called_for t o.value.sender o.value.id infos ≡ true =
        called_for-found o.value.sender o.value.id t infos j {v = o.value}
          (get_elem?-map (λ r. r.value) ts j found) refl refl missing in
      (u, repaired, ground arith)

  -- In a tree with a valid cache of announcements, and with a window that spans two ticks, if no GRAFT
  -- in the queue asks a peer for a message before a repair, and one does after it, then the message
  -- is missing, and its first announcement in the cache came from that peer, within the window and
  -- not in the last two ticks.
  pub repair_tree-IsMissing :
      (t : PlumTree) (now : ℕ) (p : PeerId) (id : ℕ) {u : PlumTree}
      → IsValid info_item t.observed
      → 2 * t.config.tick_frequency ≤ t.config.lazy_push_window
      → repair_tree h t now ≡ some u
      → asks p id t.out_events ≡ false
      → asks p id u.out_events ≡ true
      → IsMissing t id
        × (i : ℕ) × (o : Timed MessageInfo) × (get_elem? t.observed.by_time i ≡ some o)
        × (o.value.sender ≡ p)
        × (o.value.id ≡ id)
        × (now - t.config.lazy_push_window ≤ o.time)
        × (o.time ≤ now - 2 * t.config.tick_frequency)
  repair_tree-IsMissing t now p id {u} valid fits repaired unasked asked =
      let start = now - t.config.lazy_push_window in
      let end = now - 2 * t.config.tick_frequency in
      let (ts, read, inside, finds) =
        iter_range_lem laws info_item t.observed start end valid.sorted (omega arith) in
      let d = iter_range-Distinct info_item h t.observed start end valid.distinct read in
      let (w, same, queued) = asks-repair_tree p id h t now d read in
      let called : called_for t p id (map (λ r. r.value) ts) ≡ true = ground arith in
      let (missing, j, v, here, by_, of_) =
        found-called_for p id t (map (λ r. r.value) ts) called in
      let (i, o, at, is_v, after, before) =
        iter_range-arrived laws info_item t.observed start end valid.sorted read j {v = v} here in
      let (by_peer, of_id) = announced p id o.value v is_v by_ of_ in
      (missing, i, o, at, by_peer, of_id, after, before)
