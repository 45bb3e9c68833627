-- ===== src/Cache/Order.antt =====
-- The items of a time range, for any binary search that keeps its documented promise.
use irn.Base.{
  ℕ, ◌+◌, ◌-◌, ◌≤◌, ◌<◌, ◌≡◌, ap, ◌∙◌, true, none, some, List, map, take, drop, length, get_elem?,
  get_elem?-some, get_elem?-drop, get_elem?-take, get_elem?-map, get_elem?-unmap, All,
  All-of_get_elem?, ltb, nat_eq, if◌then◌else◌, arith, inl, inr, Bool-cases, nat_eq_iff, lt→ltb,
  le→ltb, ltb→lt, ltb→le,
}
use native.Mathlib.Nat.{le_refl}
use irn.Cache.{Timed, ExpiringCache, Item, times, iter_range}
use irn.Host.{Host, IsLawful, IsSorted}

-- Positions in a sorted sequence.
module _ {h : Host} (laws : IsLawful h) (xs : List ℕ) (sorted : IsSorted xs) where
  crossed : (start end : ℕ) → start < end → h.binary_search xs end < h.binary_search xs start → ⊥
  crossed start end lt cross =
      let inside : h.binary_search xs end < length xs = omega (arith, laws.search_le xs start) in
      let found = get_elem?-some xs (h.binary_search xs end) inside in
      omega (
        arith,
        laws.search_before xs start (h.binary_search xs end) {x = found.0} sorted found.1 cross,
        laws.search_behind xs end (h.binary_search xs end) {x = found.0} sorted found.1
            (le_refl (h.binary_search xs end)),
      )

  positions : (start end : ℕ) → start ≤ end → h.binary_search xs start ≤ h.binary_search xs end
  positions start end le = elim (Bool-cases (nat_eq start end)) [
    | inl same ↦ omega (arith, ap (h.binary_search xs) ((nat_eq_iff start end).0 same))
    | inr differ ↦
        let lt : start < end = ground arith in
        elim (Bool-cases (ltb (h.binary_search xs end) (h.binary_search xs start))) [
          | inl cross ↦ absurd (crossed start end lt (ltb→lt _ _ cross))
          | inr fits ↦ ltb→le _ _ fits
        ]
  ]

  inside_bounds :
      (start end i : ℕ) {x : ℕ}
      → get_elem? xs i ≡ some x
      → h.binary_search xs start ≤ i
      → i < h.binary_search xs end
      → (start ≤ x) × (x ≤ end)
  inside_bounds start end i found from to =
      (laws.search_behind xs start i sorted found from, laws.search_before xs end i sorted found to)

  between_inside :
      (start end i : ℕ) {x : ℕ}
      → get_elem? xs i ≡ some x
      → start < x
      → x < end
      → (h.binary_search xs start ≤ i) × (i < h.binary_search xs end)
  between_inside start end i {x} found after before = (
    elim (Bool-cases (ltb i (h.binary_search xs start))) [
      | inl early ↦
          absurd
            (omega (arith, laws.search_before xs start i {x = x} sorted found (ltb→lt _ _ early)))
      | inr late ↦ ltb→le _ _ late
    ],
    elim (Bool-cases (ltb i (h.binary_search xs end))) [
      | inl early ↦ ltb→lt _ _ early
      | inr late ↦
          absurd (omega (arith, laws.search_behind xs end i {x = x} sorted found (ltb→le _ _ late)))
    ],
  )

-- The slice between two positions holds what stands there.
module _ {T : Type 0} (s e : ℕ) (xs : List T) where
  get_elem?-slice :
      (j : ℕ)
      → get_elem? (take (e - s) (drop s xs)) j
        ≡ (if ltb j (e - s) then get_elem? xs (s + j) else none)
  get_elem?-slice j =
      get_elem?-take (e - s) (drop s xs) j
      ∙ ap (λ o. if ltb j (e - s) then o else none) (get_elem?-drop s xs j)

  slice_found :
      (j : ℕ) {x : T}
      → get_elem? (take (e - s) (drop s xs)) j ≡ some x
      → (get_elem? xs (s + j) ≡ some x) × (s + j < e)
  slice_found j found = elim (Bool-cases (ltb j (e - s))) [
    | inl short ↦ (ground (arith, get_elem?-slice j), omega (arith, ltb→lt _ _ short))
    | inr long ↦ absurd (ground (arith, get_elem?-slice j))
  ]

  slice_finds :
      (i : ℕ) {x : T}
      → get_elem? xs i ≡ some x
      → s ≤ i
      → i < e
      → get_elem? (take (e - s) (drop s xs)) (i - s) ≡ some x
  slice_finds i found from to =
      let back : s + (i - s) ≡ i = omega arith in
      let short : ltb (i - s) (e - s) ≡ true = lt→ltb _ _ (omega arith) in
      get_elem?-slice (i - s) ∙ rw (short, back) found

module _ {h : Host} (laws : IsLawful h) {T : Type 0} (item : Item T) (c : ExpiringCache T) where
  -- On a cache whose queue is in order, a range that does not run backwards is read without a panic:
  -- every item read arrived between the two instants, and every item that arrived strictly between
  -- them is read.
  pub iter_range_lem :
      (start end : ℕ)
      → IsSorted (times item c)
      → start ≤ end
      → (ts : List (Timed T)) × (iter_range item h c start end ≡ some (map (λ t. t.value) ts))
        × All (λ t. (start ≤ t.time) × (t.time ≤ end)) ts
        × ((i : ℕ) (t : Timed T)
            → get_elem? c.by_time i ≡ some t
            → start < t.time
            → t.time < end
            → (j : ℕ) × (get_elem? ts j ≡ some t))
  unfolding iter_range
  iter_range_lem start end sorted le =
      let s = h.binary_search (times item c) start in
      let e = h.binary_search (times item c) end in
      let time = λ (t : Timed T). t.time in
      (
        take (e - s) (drop s c.by_time),
        rw (le→ltb e s (positions laws (times item c) sorted start end le)),
        All-of_get_elem? _ _ (λ j t found.
            let (at, to) = slice_found s e c.by_time j found in
            inside_bounds laws (times item c) sorted start end (s + j)
              (get_elem?-map time c.by_time (s + j) at) (omega arith) to),
        λ i t found after before.
            let (from, to) =
              between_inside laws (times item c) sorted start end i
                (get_elem?-map time c.by_time i found) after before in
            (i - s, slice_finds s e c.by_time i found from to),
      )

  -- An item of a range stands in the queue, and arrived within the range.
  pub iter_range-arrived :
      (start end : ℕ) {vs : List T}
      → IsSorted (times item c)
      → iter_range item h c start end ≡ some vs
      → (j : ℕ) {v : T} → get_elem? vs j ≡ some v
      → (i : ℕ) × (t : Timed T) × (get_elem? c.by_time i ≡ some t)
        × (t.value ≡ v)
        × (start ≤ t.time)
        × (t.time ≤ end)
  unfolding iter_range
  iter_range-arrived start end {vs} sorted e j {v} found =
      let s = h.binary_search (times item c) start in
      let n = h.binary_search (times item c) end in
      let same : map (λ t. t.value) (take (n - s) (drop s c.by_time)) ≡ vs = ground arith in
      let (t, here, is_v) =
        get_elem?-unmap (λ t. t.value) (take (n - s) (drop s c.by_time)) j {y = v}
          (ap (λ l. get_elem? l j) same ∙ found) in
      let (at, to) = slice_found s n c.by_time j {x = t} here in
      let (after, before) =
        inside_bounds laws (times item c) sorted start end (s + j) {x = t.time}
          (get_elem?-map (λ t. t.time) c.by_time (s + j) at) (omega arith) to in
      (s + j, t, at, is_v, after, before)
