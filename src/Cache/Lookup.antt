-- ===== src/Cache/Lookup.antt =====
-- What an insertion into the cache answers, and what can be read afterwards.
use irn.Base.{
  ℕ, ◌≡◌, true, false, Option, none, some, ltb, nat_eq, if◌then◌else◌, Eq-ℕ, arith, inl, inr,
  Option-cases, nat_eq_iff,
}
use irn.Base.Keyed.{find, find-put}
use irn.Cache.{Item, ExpiringCache, timed_key, insert, get}

-- The item that is kept of two with one key: the newer one if it ranks lower.
abbrev pub better : {T : Type 0} → Item T → T → Option T → T
better item value none = value
better item value (some old) = if ltb (item.rank value) (item.rank old) then value else old

module _ {T : Type 0} (item : Item T) (c : ExpiringCache T) (value : T) (now : ℕ) where
  -- An insertion answers whether the key was new.
  pub insert-answer :
      (insert item c value now).1
      ≡ (elim (get item c (item.key value)) [ none ↦ true | some _ ↦ false ])
  unfolding insert get
  insert-answer = ground arith

  -- After an insertion the key of the item has the better of the two items, and every other key has
  -- what it had.
  pub get-insert :
      (k : ℕ)
      → get item (insert item c value now).0 k ≡ (
          if nat_eq (item.key value) k
          then some (better item value (get item c k))
          else get item c k)
  unfolding insert get
  get-insert k = elim (Option-cases (find (timed_key item) (item.key value) c.entries)) [
    | inl fresh ↦ ground (
      arith,
      find-put (timed_key item) k (record { value = value; time = now }) c.entries,
      nat_eq_iff (item.key value) k,
    )
    | inr (old, found) ↦ ground (
      arith,
      find-put (timed_key item) k (record { value = value; time = now }) c.entries,
      nat_eq_iff (item.key value) k,
    )
  ]
