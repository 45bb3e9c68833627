-- ===== src/Cache/Tests.antt =====
-- The cache on small inputs, and its theorems at concrete caches.
use irn.Base.{ℕ, ◌≡◌, ◌≤◌, ◌<◌, refl, List, [], ◌∷◌, some, map, All, get_elem?, arith, Eq-ℕ}
use irn.Cache
use irn.Cache.{
  MessageInfo, Timed, ExpiringCache, info_item, insert, get, drop_older, remove_older_than,
  iter_range,
}
use irn.Cache.Expiry
use irn.Cache.History
use irn.Cache.Order
use irn.Samples.{host, host-IsLawful}

abbrev info : ℕ → ℕ → ℕ → MessageInfo
info id hop sender = record { id = id; hop = hop; sender = sender }

abbrev at_time : MessageInfo → ℕ → Timed MessageInfo
at_time m t = record { value = m; time = t }

-- Message 7 came at 10 and better at 15; message 8 came at 20.
abbrev two : ExpiringCache MessageInfo
two = record {
  entries = at_time (info 7 2 1) 15 ∷ at_time (info 8 4 1) 20 ∷ [];
  by_time = at_time (info 7 5 2) 10 ∷ at_time (info 8 4 1) 20 ∷ [];
}

program : Unit {0}
unfolding insert get drop_older remove_older_than iter_range
program = tt

replaced : get info_item (insert info_item two (info 8 3 9) 30).0 8 ≡ some (info 8 3 9)
unfolding program
replaced = refl

two-IsValid : Expiry.IsValid info_item two
two-IsValid = record {
  distinct = (refl, (refl, tt));
  agree = λ k. refl;
  sorted = ((omega arith, tt), (tt, tt));
}

iter_range_lem_example :
    (ts : List (Timed MessageInfo)) × (iter_range info_item host two 5 30
      ≡ some (map (λ t. t.value) ts))
    × All (λ t. (5 ≤ t.time) × (t.time ≤ 30)) ts
    × ((i : ℕ) (t : Timed MessageInfo)
        → get_elem? two.by_time i ≡ some t
        → 5 < t.time
        → t.time < 30
        → (j : ℕ) × (get_elem? ts j ≡ some t))
iter_range_lem_example =
    Order.iter_range_lem host-IsLawful info_item two 5 30 ((omega arith, tt), (tt, tt))
      (omega arith)

-- Message 7 arrives at 10, by a shorter way at 20, and is asked for again after an expiry.
abbrev calls : List (History.Call MessageInfo)
calls =
    History.Call.inserts (info 7 3 1) 10
    ∷ History.Call.inserts (info 7 2 2) 20
    ∷ History.Call.expires 9
    ∷ []

run-recall_example :
    Expiry.IsValid info_item (History.run info_item (Cache.new info_item) calls)
    × (History.lookup info_item 7 (History.run info_item (Cache.new info_item) calls)
        ≡ some (record { value = info 7 2 2; time = 10 }))
run-recall_example = History.run-recall info_item calls 7 (omega arith, (omega arith, tt))
