-- ===== src/Cache/History.antt =====
-- The cache through its histories, against a map from keys to items with their times of arrival.
use irn.Base.{
  ℕ, ◌≤◌, ◌≡◌, refl, ap, ◌∙◌, Bool, true, false, Option, none, some, List, [], ◌∷◌, ◌++◌, ltb,
  nat_eq, if◌then◌else◌, ◌==◌, Eq-ℕ, arith, inl, inr, Option-cases, Bool-cases, nat_eq_iff,
  All-mono,
}
use irn.Base.Keyed.{find, contains-find, Distinct}
use irn.Cache.{times, Item, Timed, ExpiringCache, timed_key, new, insert, get, remove_older_than}
use irn.Cache.Expiry.{
  IsValid, IsBefore, later, insert-IsValid, remove_older_than-IsValid, remove_older_than-IsBefore,
  get-remove_older_than, drop_older-by_time,
}
use irn.Cache.Lookup.{better, get-insert}

pub data Call (T : Type 0) : Type 0 where
  inserts : (value : T) (now : ℕ) → Call T
  expires : (since : ℕ) → Call T

module _ {T : Type 0} (item : Item T) where
  unfoldable pub run : ExpiringCache T → List (Call T) → ExpiringCache T
  run c [] = c
  run c (Call.inserts value now ∷ rest) = run (insert item c value now).0 rest
  run c (Call.expires since ∷ rest) = run (remove_older_than item c since) rest

  -- The clock does not run backwards.
  abbrev pub IsOrdered : ℕ → List (Call T) → Type 0
  IsOrdered now [] = Unit
  IsOrdered now (Call.inserts value t ∷ rest) = (now ≤ t) × IsOrdered t rest
  IsOrdered now (Call.expires since ∷ rest) = IsOrdered now rest

  -- The item of a key with the time of the key's arrival.
  abbrev timed : Option T → Option (Timed T) → Option (Timed T)
  timed (some v) (some t) = some (record { value = v; time = t.time })
  timed (some v) none = none
  timed none o = none

  abbrev pub lookup : ℕ → ExpiringCache T → Option (Timed T)
  lookup k c = timed (get item c k) (find (timed_key item) k c.by_time)

  -- What a map holds for the key after an insertion: a new key arrives now, and an old one keeps its
  -- time and the better of the two items.
  abbrev pub arrive : T → ℕ → Option (Timed T) → Timed T
  arrive value now none = record { value = value; time = now }
  arrive value now (some t) = record { value = better item value (some t.value); time = t.time }

  abbrev pub outlive : ℕ → Option (Timed T) → Option (Timed T)
  outlive since none = none
  outlive since (some t) = if ltb since t.time then some t else none

  -- The map's history at the key.
  abbrev pub recall : ℕ → Option (Timed T) → List (Call T) → Option (Timed T)
  recall k held [] = held
  recall k held (Call.inserts value now ∷ rest) =
      recall k (if nat_eq (item.key value) k then some (arrive value now held) else held) rest
  recall k held (Call.expires since ∷ rest) = recall k (outlive since held) rest

  find-snoc :
      (k : ℕ) (xs : List (Timed T)) (x : Timed T)
      → find (timed_key item) k xs ≡ none
      → find (timed_key item) k (xs ++ x ∷ []) ≡ (if timed_key item x == k then some x else none)
  find-snoc k [] x e = refl
  find-snoc k (y ∷ xs) x e = ground (arith, find-snoc k xs x)

  find-append_found :
      (k : ℕ) (xs ys : List (Timed T)) (t : Timed T)
      → find (timed_key item) k xs ≡ some t
      → find (timed_key item) k (xs ++ ys) ≡ some t
  find-append_found k [] ys t e = cc
  find-append_found k (y ∷ xs) ys t e = ground (arith, find-append_found k xs ys t)

  find-later :
      (since k : ℕ) (ts : List (Timed T))
      → Distinct (timed_key item) ts
      → find (timed_key item) k (later item since ts) ≡ outlive since (find (timed_key item) k ts)
  find-later since k [] d = refl
  find-later since k (t ∷ ts) d = ground (
    arith,
    find-later since k ts d.1,
    contains-find (timed_key item) k ts,
    nat_eq_iff (timed_key item t) k,
  )

  by_time-fresh :
      (c : ExpiringCache T) (value : T) (now : ℕ)
      → find (timed_key item) (item.key value) c.entries ≡ none
      → (insert item c value now).0.by_time ≡ c.by_time ++ record { value = value; time = now } ∷ []
  unfolding insert
  by_time-fresh c value now fresh = ground arith

  by_time-found :
      (c : ExpiringCache T) (value : T) (now : ℕ) (old : Timed T)
      → find (timed_key item) (item.key value) c.entries ≡ some old
      → (insert item c value now).0.by_time ≡ c.by_time
  unfolding insert
  by_time-found c value now old found = ground arith

  abbrev is_some : Option (Timed T) → Bool
  is_some none = false
  is_some (some t) = true

  -- The map and the queue find the same keys.
  find-same :
      {c : ExpiringCache T}
      → IsValid item c
      → (k : ℕ)
      → is_some (find (timed_key item) k c.by_time) ≡ is_some (find (timed_key item) k c.entries)
  find-same {c} i k = ground (
    arith,
    i.agree k,
    contains-find (timed_key item) k c.by_time,
    contains-find (timed_key item) k c.entries,
  )

  lookup-insert :
      (c : ExpiringCache T) (value : T) (now k : ℕ)
      → IsValid item c
      → lookup k (insert item c value now).0
        ≡ (if nat_eq (item.key value) k then some (arrive value now (lookup k c)) else lookup k c)
  unfolding get
  lookup-insert c value now k i =
      let entry : Timed T = record { value = value; time = now } in
      elim (Option-cases (find (timed_key item) (item.key value) c.entries)) [
        | inl fresh ↦ elim (Bool-cases (nat_eq (item.key value) k)) [
          | inl same ↦ ground (
            arith,
            get-insert item c value now k,
            by_time-fresh c value now fresh,
            find-snoc k c.by_time entry,
            nat_eq_iff (item.key value) k,
            find-same i k,
          )
          | inr other ↦ elim (Option-cases (find (timed_key item) k c.by_time)) [
            | inl lost ↦ ground (
              arith,
              get-insert item c value now k,
              by_time-fresh c value now fresh,
              find-snoc k c.by_time entry,
            )
            | inr (t, kept) ↦ ground (
              arith,
              get-insert item c value now k,
              by_time-fresh c value now fresh,
              find-append_found k c.by_time (entry ∷ []) t,
            )
          ]
        ]
        | inr (old, found) ↦ ground (
          arith,
          get-insert item c value now k,
          by_time-found c value now old found,
          nat_eq_iff (item.key value) k,
          find-same i k,
        )
      ]

  lookup-remove_older_than :
      (c : ExpiringCache T) (since k : ℕ)
      → IsValid item c
      → lookup k (remove_older_than item c since) ≡ outlive since (lookup k c)
  unfolding remove_older_than
  lookup-remove_older_than c since k i =
      let queue = drop_older-by_time item since c.entries c.by_time i.sorted in
      rw (get-remove_older_than item c since i k, queue, find-later since k c.by_time i.distinct)
        (ground (
          arith,
          contains-find (timed_key item) k (later item since c.by_time),
          find-later since k c.by_time i.distinct,
        ))

  run-from :
      (calls : List (Call T)) (c : ExpiringCache T) (now k : ℕ)
      → IsValid item c
      → IsBefore now item c
      → IsOrdered now calls
      → IsValid item (run c calls) × (lookup k (run c calls) ≡ recall k (lookup k c) calls)
  unfolding run
  run-from [] c now k i b o = (i, refl)
  run-from (Call.inserts value t ∷ rest) c now k i b o =
      let before : IsBefore t item c =
        All-mono (λ x. x ≤ now) (λ x. x ≤ t) (times item c) (λ x le. omega (arith, le, o.0)) b in
      let (j, d) = insert-IsValid item c value t i before in
      let (valid, e) = run-from rest (insert item c value t).0 t k j d o.1 in
      (valid, e ∙ ap (λ held. recall k held rest) (lookup-insert c value t k i))
  run-from (Call.expires since ∷ rest) c now k i b o =
      let j = remove_older_than-IsValid item c since i in
      let d = remove_older_than-IsBefore item c since i now b in
      let (valid, e) = run-from rest (remove_older_than item c since) now k j d o in
      (valid, e ∙ ap (λ held. recall k held rest) (lookup-remove_older_than c since k i))

  -- After any insertions and expiries in the order of the clock, a new cache is valid, and holds for each
  -- key what a map with times of arrival holds: the best item that was inserted since the key arrived,
  -- unless an expiry since then reached the key's arrival.
  pub run-recall :
      (calls : List (Call T)) (k : ℕ)
      → IsOrdered 0 calls
      → IsValid item (run (new item) calls)
        × (lookup k (run (new item) calls) ≡ recall k none calls)
  unfolding new get
  run-recall calls k o =
      run-from calls (new item) 0 k (record { distinct = tt; agree = λ j. refl; sorted = tt }) tt o
