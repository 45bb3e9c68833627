-- ===== src/Cache.antt =====
-- src/network/episub/cache.rs: a map from message ids to timed records, with a queue of the records in
-- the order of their arrival. The records shared by both (`Arc<Timed<T>>`) never change, so each part
-- holds its own copy.
pub mod Lookup
mod Tests
pub mod Order
pub mod Range
pub mod Expiry
pub mod History
use irn.Base.{
  ℕ, ◌+◌, ◌-◌, Bool, true, false, Option, none, some, List, [], ◌∷◌, ◌++◌, map, ltb, take, drop,
  if◌then◌else◌, Eq-ℕ,
}
use irn.Base.Keyed.{find, put, remove, contains}
use irn.Host.{Host}
use irn.Rpc.{PeerId, Bytes}

pub record MessageRecord : Type 0 where
  pub id : ℕ
  pub hop : ℕ
  pub sender : PeerId
  pub payload : Bytes

pub record MessageInfo : Type 0 where
  pub id : ℕ
  pub hop : ℕ
  pub sender : PeerId

-- `Keyed` and `Ord` of a cached item: its key, and the number that its order compares.
pub record Item (T : Type 0) : Type 0 where
  pub key : T → ℕ
  pub rank : T → ℕ

abbrev pub record_item : Item MessageRecord
record_item = record { key = λ m. m.id; rank = λ m. m.hop }

abbrev pub info_item : Item MessageInfo
info_item = record { key = λ m. m.id; rank = λ m. m.hop }

pub record Timed (T : Type 0) : Type 0 where
  pub value : T
  pub time : ℕ

pub record ExpiringCache (T : Type 0) : Type 0 where
  pub entries : List (Timed T)
  pub by_time : List (Timed T)

module _ {T : Type 0} (item : Item T) where
  abbrev pub timed_key : Timed T → ℕ
  timed_key t = item.key t.value

  unfoldable pub new : ExpiringCache T
  new = record { entries = []; by_time = [] }

  -- A second item of a key replaces the first in the map if it ranks lower; its answer is false.
  unfoldable pub insert : ExpiringCache T → T → ℕ → ExpiringCache T × Bool
  insert c value now =
      let entry : Timed T = record { value = value; time = now } in
      elim (find timed_key (item.key value) c.entries) [
        | some old ↦ (
          if ltb (item.rank value) (item.rank old.value)
              then record c { entries = put timed_key entry c.entries }
              else c,
          false,
        )
        | none ↦ (
          record { entries = put timed_key entry c.entries; by_time = c.by_time ++ entry ∷ [] },
          true,
        )
      ]

  unfoldable pub get : ExpiringCache T → ℕ → Option T
  get c key = elim (find timed_key key c.entries) [ none ↦ none | some t ↦ some t.value ]

  -- `remove_older_than` on the two parts: the front of the queue goes while it is not later.
  unfoldable pub drop_older : ℕ → List (Timed T) → List (Timed T) → ExpiringCache T
  drop_older since entries [] = record { entries = entries; by_time = [] }
  drop_older since entries (t ∷ rest) =
      let older = drop_older since (remove timed_key (timed_key t) entries) rest in
      if ltb since t.time then record { entries = entries; by_time = t ∷ rest } else older

  unfoldable pub remove_older_than : ExpiringCache T → ℕ → ExpiringCache T
  remove_older_than c since = drop_older since c.entries c.by_time

  abbrev pub times : ExpiringCache T → List ℕ
  times c = map (λ t. t.time) c.by_time

  -- The items between two instants; a range whose start lies behind its end is a panic, `none`.
  unfoldable pub iter_range : Host → ExpiringCache T → ℕ → ℕ → Option (List T)
  iter_range h c start end =
      let s = h.binary_search (times c) start in
      let e = h.binary_search (times c) end in
      if ltb e s then none else some (map (λ t. t.value) (take (e - s) (drop s c.by_time)))
