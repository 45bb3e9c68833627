-- ===== src/Cache/Range.antt =====
-- The items of a time range: what stands in the queue, with no key twice.
use irn.Base.{ℕ, ◌-◌, ◌≡◌, refl, some, List, [], ◌∷◌, map, take, drop, arith, Eq-ℕ, subst, ◌∙◌}
use irn.Base.Keyed.{contains, Distinct, Distinct-take, Distinct-drop}
use irn.Cache.{Timed, ExpiringCache, Item, times, timed_key, iter_range}
use irn.Host.{Host}

module _ {T : Type 0} (item : Item T) where
  contains-values :
      (k : ℕ) (ts : List (Timed T))
      → contains item.key k (map (λ t. t.value) ts) ≡ contains (timed_key item) k ts
  contains-values k [] = refl
  contains-values k (t ∷ ts) = ground (arith, contains-values k ts)

  Distinct-values :
      (ts : List (Timed T))
      → Distinct (timed_key item) ts
      → Distinct item.key (map (λ t. t.value) ts)
  Distinct-values [] d = tt
  Distinct-values (t ∷ ts) d = (contains-values (timed_key item t) ts ∙ d.0, Distinct-values ts d.1)

  -- The items of a range of a queue without duplicates have no duplicates.
  pub iter_range-Distinct :
      (h : Host) (c : ExpiringCache T) (start end : ℕ) {vs : List T}
      → Distinct (timed_key item) c.by_time
      → iter_range item h c start end ≡ some vs
      → Distinct item.key vs
  unfolding iter_range
  iter_range-Distinct h c start end {vs} d e =
      let s = h.binary_search (times item c) start in
      let n = h.binary_search (times item c) end in
      let slice = take (n - s) (drop s c.by_time) in
      let same : map (λ t. t.value) slice ≡ vs = ground arith in
      subst (Distinct item.key) same (
        Distinct-values slice (
          Distinct-take (timed_key item) (n - s) (drop s c.by_time)
            (Distinct-drop (timed_key item) s c.by_time d)))
