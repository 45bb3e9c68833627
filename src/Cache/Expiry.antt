-- ===== src/Cache/Expiry.antt =====
-- The invariant of the cache, and what expiry removes.
use irn.Base.{
  ℕ, ◌≤◌, ◌<◌, ◌≡◌, refl, sym, ap, ◌∙◌, false, not, ◌&&◌, none, List, [], ◌∷◌, ◌++◌, map, retain,
  All, All-append, if_elim, ltb, if◌then◌else◌, arith, inl, inr, Bool-cases, Option-cases, Eq-ℕ,
  nat_eq_iff, map-append-one, ltb→lt,
}
use irn.Base.Keyed.{
  find, remove, contains, Distinct, Distinct-retain, Distinct-snoc, contains-append, contains-put,
  contains-find, find-remove, contains-retain,
}
use irn.Cache.{
  Item, Timed, ExpiringCache, timed_key, times, insert, get, drop_older, remove_older_than,
}
use irn.Host.{IsSorted}

-- The queue has each key once and in order of arrival, and holds the keys of the map.
pub record IsValid {T : Type 0} (item : Item T) (c : ExpiringCache T) : Type 0 where
  pub distinct : Distinct (timed_key item) c.by_time
  pub agree :
      (k : ℕ) → contains (timed_key item) k c.by_time ≡ contains (timed_key item) k c.entries
  pub sorted : IsSorted (times item c)

-- No record arrived later.
abbrev pub IsBefore : {T : Type 0} → ℕ → Item T → ExpiringCache T → Type 0
IsBefore now item c = All (λ t. t ≤ now) (times item c)

IsSorted-snoc : (xs : List ℕ) (t : ℕ) → IsSorted xs → All (λ x. x ≤ t) xs → IsSorted (xs ++ t ∷ [])
IsSorted-snoc [] t s b = (tt, tt)
IsSorted-snoc (x ∷ xs) t s b =
    (All-append (λ y. x ≤ y) xs (t ∷ []) s.0 (b.0, tt), IsSorted-snoc xs t s.1 b.1)

module _ {T : Type 0} (item : Item T) where
  -- An insertion at a time that is not before any arrival keeps the cache valid.
  pub insert-IsValid :
      (c : ExpiringCache T) (value : T) (now : ℕ)
      → IsValid item c
      → IsBefore now item c
      → IsValid item (insert item c value now).0 × IsBefore now item (insert item c value now).0
  unfolding insert
  insert-IsValid c value now i b =
      let key = timed_key item in
      let entry : Timed T = record { value = value; time = now } in
      elim (Option-cases (find key (item.key value) c.entries)) [
        | inl fresh ↦
            let absent : contains key (item.key value) c.by_time ≡ false =
              i.agree (item.key value)
              ∙ contains-find key (item.key value) c.entries
              ∙ rw fresh refl in
            let same = map-append-one (λ (t : Timed T). t.time) c.by_time entry in
            rw (fresh, insert)
              (
                record {
                  distinct = Distinct-snoc key entry c.by_time absent i.distinct;
                  agree = λ k. ground (
                    arith,
                    contains-append key k c.by_time (entry ∷ []),
                    contains-put key k entry c.entries,
                    i.agree k,
                  );
                  sorted = rw same (IsSorted-snoc (times item c) now i.sorted b);
                },
                rw same (All-append (λ t. t ≤ now) (times item c) (now ∷ []) b (omega arith, tt)),
              )
        | inr (old, found) ↦
            rw (found, insert)
              (if_elim (λ u. IsValid item u × IsBefore now item u)
                (ltb (item.rank value) (item.rank old.value))
                (λ _. (
                  record {
                    distinct = i.distinct;
                    agree = λ k. ground (
                      arith,
                      contains-put key k entry c.entries,
                      i.agree k,
                      contains-find key k c.entries,
                      nat_eq_iff (item.key value) k,
                    );
                    sorted = i.sorted;
                  },
                  b,
                ))
                (λ _. (i, b)))
      ]

  -- The part of a queue that arrived after an instant.
  abbrev pub later : ℕ → List (Timed T) → List (Timed T)
  later since = retain (λ t. ltb since t.time)

  later_fixed :
      (since : ℕ) (ts : List (Timed T))
      → All (λ t. since < t) (map (λ (t : Timed T). t.time) ts)
      → later since ts ≡ ts
  later_fixed since [] a = refl
  later_fixed since (t ∷ ts) a = ground (arith, later_fixed since ts a.1)

  young_rest :
      (since : ℕ) (t : Timed T) (ts : List (Timed T))
      → since < t.time
      → All (λ x. t.time ≤ x) (map (λ (u : Timed T). u.time) ts)
      → All (λ x. since < x) (map (λ (u : Timed T). u.time) ts)
  young_rest since t [] young a = tt
  young_rest since t (u ∷ ts) young a = (omega arith, young_rest since t ts young a.1)

  pub drop_older-by_time :
      (since : ℕ) (entries ts : List (Timed T))
      → IsSorted (map (λ t. t.time) ts)
      → (drop_older item since entries ts).by_time ≡ later since ts
  unfolding drop_older
  drop_older-by_time since entries [] s = refl
  drop_older-by_time since entries (t ∷ ts) s = elim (Bool-cases (ltb since t.time)) [
    | inl young ↦
        rw young
          (ap (◌∷◌ t) (sym (later_fixed since ts (young_rest since t ts (ltb→lt _ _ young) s.0))))
    | inr old ↦
        rw old
          (drop_older-by_time since (remove (timed_key item) (timed_key item t) entries) ts s.1)
  ]

  -- What a key finds in the map afterwards.
  drop_older-find :
      (since k : ℕ) (entries ts : List (Timed T))
      → Distinct (timed_key item) ts
      → IsSorted (map (λ t. t.time) ts)
      → find (timed_key item) k (drop_older item since entries ts).entries ≡ (
          if contains (timed_key item) k ts && not (contains (timed_key item) k (later since ts))
          then none
          else find (timed_key item) k entries)
  unfolding drop_older
  drop_older-find since k entries [] d s = refl
  drop_older-find since k entries (t ∷ ts) d s = elim (Bool-cases (ltb since t.time)) [
    | inl young ↦ rw young (
        ground (
          arith,
          ap (contains (timed_key item) k)
              (later_fixed since ts (young_rest since t ts (ltb→lt _ _ young) s.0)),
        ))
    | inr old ↦ rw old (
        ground (
          arith,
          drop_older-find since k (remove (timed_key item) (timed_key item t) entries) ts d.1 s.1,
          find-remove (timed_key item) k (timed_key item t) entries,
          nat_eq_iff (timed_key item t) k,
          contains-retain (timed_key item) k (λ x. ltb since x.time) ts,
        ))
  ]

  All-later :
      (since n : ℕ) (ts : List (Timed T))
      → All (λ x. n ≤ x) (map (λ (u : Timed T). u.time) ts)
      → All (λ x. n ≤ x) (map (λ (u : Timed T). u.time) (later since ts))
  All-later since n [] a = tt
  All-later since n (t ∷ ts) a = ground (arith, All-later since n ts a.1)

  later-IsBefore :
      (since now : ℕ) (ts : List (Timed T))
      → All (λ t. t ≤ now) (map (λ (u : Timed T). u.time) ts)
      → All (λ t. t ≤ now) (map (λ (u : Timed T). u.time) (later since ts))
  later-IsBefore since now [] a = tt
  later-IsBefore since now (t ∷ ts) a = ground (arith, later-IsBefore since now ts a.1)

  IsSorted-later :
      (since : ℕ) (ts : List (Timed T))
      → IsSorted (map (λ t. t.time) ts)
      → IsSorted (map (λ t. t.time) (later since ts))
  IsSorted-later since [] s = tt
  IsSorted-later since (t ∷ ts) s =
      ground (arith, IsSorted-later since ts s.1, All-later since t.time ts s.0)

  module _ (c : ExpiringCache T) (since : ℕ) (i : IsValid item c) where
    -- Expiry keeps exactly the keys of a valid cache that first arrived after the given instant, each
    -- with its item; the others are forgotten.
    pub get-remove_older_than :
        (k : ℕ)
        → get item (remove_older_than item c since) k
          ≡ (if contains (timed_key item) k (later since c.by_time) then get item c k else none)
    unfolding get remove_older_than
    get-remove_older_than k =
        rw (drop_older-find since k c.entries c.by_time i.distinct i.sorted, get)
          (ground (
            arith,
            i.agree k,
            contains-find (timed_key item) k c.entries,
            contains-retain (timed_key item) k (λ x. ltb since x.time) c.by_time,
          ))

    agree-remove_older_than :
        (k : ℕ)
        → contains (timed_key item) k (later since c.by_time)
          ≡ contains (timed_key item) k (remove_older_than item c since).entries
    unfolding remove_older_than
    agree-remove_older_than k = ground (
      arith,
      contains-find (timed_key item) k (drop_older item since c.entries c.by_time).entries,
      drop_older-find since k c.entries c.by_time i.distinct i.sorted,
      i.agree k,
      contains-find (timed_key item) k c.entries,
      contains-retain (timed_key item) k (λ x. ltb since x.time) c.by_time,
    )

    -- Expiry keeps a valid cache valid.
    pub remove_older_than-IsValid : IsValid item (remove_older_than item c since)
    unfolding remove_older_than
    remove_older_than-IsValid =
        let e = drop_older-by_time since c.entries c.by_time i.sorted in
        record {
          distinct = rw e (Distinct-retain (timed_key item) _ c.by_time i.distinct);
          agree = λ k. rw e (agree-remove_older_than k);
          sorted = rw e (IsSorted-later since c.by_time i.sorted);
        }

    pub remove_older_than-IsBefore :
        (now : ℕ) → IsBefore now item c → IsBefore now item (remove_older_than item c since)
    unfolding remove_older_than
    remove_older_than-IsBefore now b =
        rw (drop_older-by_time since c.entries c.by_time i.sorted)
          (later-IsBefore since now c.by_time b)
