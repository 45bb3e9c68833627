-- ===== src/Tree/Progress.antt =====
-- A tree whose clock runs forward, and whose lazy push window spans two ticks, never panics.
use irn.Base.{
  ℕ, ◌-◌, ◌*◌, ◌≤◌, ◌≡◌, Option, none, some, List, [], ◌∷◌, map, not, is_empty, All-mono, arith,
  ltb, if_elim, Option-cases, inl, inr,
}
use irn.Cache.{
  ExpiringCache, MessageRecord, MessageInfo, Item, times, record_item, info_item, iter_range,
  remove_older_than,
}
use irn.Cache
use irn.Cache.Expiry.{
  IsValid, IsBefore, insert-IsValid, remove_older_than-IsValid, remove_older_than-IsBefore,
}
use irn.Cache.Order.{iter_range_lem}
use irn.Config.{Config}
use irn.Host.{Host, IsLawful}
use irn.Rpc.{PeerId, Bytes, Action, MessageRef, NetworkAction}
use irn.Tree.{
  PlumTree, publish, inject_message, inject_ihave, inject_prune, prune_sender, delivered_payload,
  publish_ihaves, repair_tree, prune_history, maintain, pop_from, poll, emit_all, notify,
}

-- The cache is valid, and nothing in it is later than now.
abbrev pub IsTimely : {T : Type 0} → ℕ → Item T → ExpiringCache T → Type 0
IsTimely now item c = IsValid item c × IsBefore now item c

pub record IsCurrent (now : ℕ) (c : Config) (t : PlumTree) : Type 0 where
  pub received_timely : IsTimely now record_item t.received
  pub observed_timely : IsTimely now info_item t.observed
  pub configured : t.config ≡ c

later_on :
    {T : Type 0} (item : Item T) (c : ExpiringCache T) (then_ now : ℕ)
    → then_ ≤ now
    → IsTimely then_ item c
    → IsTimely now item c
later_on item c then_ now le (valid, before) =
    (valid, All-mono (λ t. t ≤ then_) (λ t. t ≤ now) (times item c) (λ t b. omega arith) before)

module _ {c : Config} {then_ now : ℕ} (le : then_ ≤ now) (t : PlumTree) where
  pub IsCurrent-later : IsCurrent then_ c t → IsCurrent now c t
  IsCurrent-later i = record {
    received_timely = later_on record_item t.received then_ now le i.received_timely;
    observed_timely = later_on info_item t.observed then_ now le i.observed_timely;
    configured = i.configured;
  }

-- The result is there, and current.
abbrev pub Goes : ℕ → Config → Option PlumTree → Type 0
Goes now c none = ⊥
Goes now c (some u) = IsCurrent now c u

module _ {c : Config} (now : ℕ) (t : PlumTree) (i : IsCurrent now c t) where
  pub publish-IsCurrent : (id : ℕ) (payload : Bytes) → IsCurrent now c (publish t id payload now)
  unfolding publish
  publish-IsCurrent id payload = elim (Option-cases (Cache.get record_item t.received id)) [
    | inr (m, e) ↦ simp (publish, e) i
    | inl e ↦ elim (Option-cases (Cache.get info_item t.observed id)) [
      | inr (m, f) ↦ simp (publish, e, f) i
      | inl f ↦
          simp (publish, e, f)
            (record {
              received_timely =
                  insert-IsValid record_item t.received
                    (record { id = id; payload = payload; hop = 0; sender = t.local_node }) now
                    i.received_timely.0 i.received_timely.1;
              observed_timely = i.observed_timely;
              configured = i.configured;
            })
    ]
  ]

  pub inject_ihave-IsCurrent :
      (peer : PeerId) (id hop : ℕ) → IsCurrent now c (inject_ihave t peer id hop now)
  unfolding inject_ihave
  inject_ihave-IsCurrent peer id hop = record {
    received_timely = i.received_timely;
    observed_timely =
        insert-IsValid info_item t.observed (record { id = id; hop = hop; sender = peer }) now
          i.observed_timely.0 i.observed_timely.1;
    configured = i.configured;
  }

  prune_sender-IsCurrent : (peer : PeerId) → IsCurrent now c (prune_sender t peer)
  unfolding prune_sender inject_prune
  prune_sender-IsCurrent peer = record {
    received_timely = ground (arith, i.received_timely);
    observed_timely = ground (arith, i.observed_timely);
    configured = ground (arith, i.configured);
  }

expired :
    {T : Type 0} (item : Item T) (c : ExpiringCache T) (now since : ℕ)
    → IsTimely now item c
    → IsTimely now item (remove_older_than item c since)
expired item c now since (valid, before) = (
  remove_older_than-IsValid item c since valid,
  remove_older_than-IsBefore item c since valid now before,
)

module _ (h : Host) {c : Config} (now : ℕ) (t : PlumTree) (i : IsCurrent now c t) where
  pub inject_message-Goes :
      (peer : PeerId) (id hop : ℕ) (payload out : Bytes)
      → delivered_payload h c payload ≡ some out
      → Goes now c (inject_message h t peer id hop payload now)
  unfolding inject_message
  inject_message-Goes peer id hop payload out readable =
      let m : MessageRecord = record { id = id; hop = hop; payload = payload; sender = peer } in
      let inserted = Cache.insert record_item t.received m now in
      let u : PlumTree = record t { received = inserted.0 } in
      let j : IsCurrent now c u = record {
        received_timely =
            insert-IsValid record_item t.received m now i.received_timely.0 i.received_timely.1;
        observed_timely = i.observed_timely;
        configured = i.configured;
      } in
      if_elim (Goes now c) inserted.1
        (λ _.
          let readable_ : delivered_payload h t.config payload ≡ some out =
            rw i.configured readable in
          simp readable_ (record {
            received_timely = j.received_timely;
            observed_timely = j.observed_timely;
            configured = j.configured;
          }))
        (λ _. prune_sender-IsCurrent now u j peer)

  publish_ihaves-Goes : IsLawful h → Goes now c (publish_ihaves h t now)
  unfolding publish_ihaves
  publish_ihaves-Goes laws =
      let (ts, read, inside, found) =
        iter_range_lem laws record_item t.received (now - t.config.lazy_push_window) now
          i.received_timely.0.sorted (omega arith) in
      let refs : List MessageRef =
        map (λ (m : MessageRecord). record { id = m.id; hop = m.hop }) (map (λ r. r.value) ts) in
      rw (read, publish_ihaves, Goes)
        (if_elim (IsCurrent now c) (not (is_empty refs))
          {x = emit_all t (map (notify t (Action.ihave refs)) t.lazy)}
          (λ _. record {
            received_timely = i.received_timely;
            observed_timely = i.observed_timely;
            configured = i.configured;
          })
          (λ _. i))

  repair_tree-Goes :
      IsLawful h → 2 * c.tick_frequency ≤ c.lazy_push_window → Goes now c (repair_tree h t now)
  unfolding repair_tree prune_history
  repair_tree-Goes laws fits =
      let fits_ : 2 * t.config.tick_frequency ≤ t.config.lazy_push_window = rw i.configured fits in
      let (ts, read, inside, found) =
        iter_range_lem laws info_item t.observed (now - t.config.lazy_push_window)
          (now - 2 * t.config.tick_frequency) i.observed_timely.0.sorted (omega arith) in
      let cutoff = now - t.config.history_window in
      rw (read, repair_tree, Goes)
        (record {
          received_timely = expired record_item t.received now cutoff i.received_timely;
          observed_timely = expired info_item t.observed now cutoff i.observed_timely;
          configured = i.configured;
        })

-- A current tree is left current by a poll, whatever it hands out.
abbrev pub GoesOn : ℕ → Config → Option (Option NetworkAction × PlumTree) → Type 0
GoesOn now c none = ⊥
GoesOn now c (some (a, u)) = IsCurrent now c u

pop_from-IsCurrent :
    {c : Config} (now : ℕ) (t : PlumTree) (actions : List NetworkAction)
    → IsCurrent now c t
    → IsCurrent now c (pop_from t actions).1
unfolding pop_from
pop_from-IsCurrent now t [] i = i
pop_from-IsCurrent now t (a ∷ rest) i = record {
  received_timely = i.received_timely;
  observed_timely = i.observed_timely;
  configured = i.configured;
}

module _ {h : Host} (laws : IsLawful h) (c : Config)
    (fits : 2 * c.tick_frequency ≤ c.lazy_push_window) (now : ℕ) where
  ticked :
      (o : Option PlumTree)
      → Goes now c o
      → Goes now c (elim o [ none ↦ none | some w ↦ some (record w { last_tick = now }) ])
  ticked none i = absurd i
  ticked (some w) i = record {
    received_timely = i.received_timely;
    observed_timely = i.observed_timely;
    configured = i.configured;
  }

  repaired :
      (o : Option PlumTree)
      → Goes now c o
      → Goes now c (elim o [
        | none ↦ none
        | some u ↦ elim (repair_tree h u now) [
          | none ↦ none
          | some w ↦ some (record w { last_tick = now })
        ]
      ])
  repaired none i = absurd i
  repaired (some u) i = ticked (repair_tree h u now) (repair_tree-Goes h now u i laws fits)

  maintain-Goes : (t : PlumTree) → IsCurrent now c t → Goes now c (maintain h t now)
  unfolding maintain
  maintain-Goes t i =
      if_elim (Goes now c) (ltb t.config.tick_frequency (now - t.last_tick))
        (λ _. repaired (publish_ihaves h t now) (publish_ihaves-Goes h now t i laws)) (λ _. i)

  pub poll-GoesOn : (t : PlumTree) → IsCurrent now c t → GoesOn now c (poll h t now)
  unfolding poll
  poll-GoesOn t i = polled (maintain h t now) (maintain-Goes t i)
    where
      polled :
          (o : Option PlumTree)
          → Goes now c o
          → GoesOn now c (elim o [ none ↦ none | some u ↦ some (pop_from u u.out_events) ])
      polled none j = absurd j
      polled (some u) j = pop_from-IsCurrent now u u.out_events j
