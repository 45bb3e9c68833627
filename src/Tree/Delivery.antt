-- ===== src/Tree/Delivery.antt =====
-- Messages are delivered once.
use irn.Base.{All, ℕ, ◌+◌, ◌≤◌, ◌≡◌, refl, some, List, [], ◌∷◌, Eq-ℕ, arith, inl, inr, Bool-cases}
use irn.Cache.{ExpiringCache, MessageRecord, record_item, info_item}
use irn.Cache
use irn.Config.{Config}
use irn.Host.{Host}
use irn.Rpc.{PeerId, Bytes}
use irn.Tree.{
  PlumTree, emit_all, publish, inject_message, inject_graft, inject_neighbor_up,
  inject_neighbor_down, inject_ihave, inject_prune, delivered_payload, forward_message,
  prune_sender,
}
use irn.Tree.Inputs.{Input, feed, feed_all}
use irn.Tree.Budget.{deliveries, pending, budget, feed_all-budget}

-- The payload of a message can be read: it decompresses, if compression is on.
abbrev pub IsReadable : Host → Config → Input → Type 0
IsReadable h c (Input.message peer id hop payload now) =
    (out : Bytes) × (delivered_payload h c payload ≡ some out)
IsReadable h c _ = Unit

-- The step returns, under the same configuration.
abbrev Returns : Host → PlumTree → Input → Type 0
Returns h t i = (u : PlumTree) × (feed h t i ≡ some u) × (u.config ≡ t.config)

prune_sender-config : (t : PlumTree) (peer : PeerId) → (prune_sender t peer).config ≡ t.config
unfolding prune_sender inject_prune
prune_sender-config t peer = ground arith

publish-config :
    (t : PlumTree) (id : ℕ) (payload : Bytes) (now : ℕ)
    → (publish t id payload now).config ≡ t.config
unfolding publish
publish-config t id payload now = ground arith

feed-Returns : (h : Host) (t : PlumTree) (i : Input) → IsReadable h t.config i → Returns h t i
unfolding feed inject_message inject_neighbor_up inject_neighbor_down inject_prune inject_ihave
    inject_graft
feed-Returns h t (Input.message peer id hop payload now) (out, e) =
    let m : MessageRecord = record { id = id; hop = hop; payload = payload; sender = peer } in
    let inserted = Cache.insert record_item t.received m now in
    let u : PlumTree = record t { received = inserted.0 } in
    elim (Bool-cases inserted.1) [
      | inl new ↦ (emit_all u (forward_message t peer id hop payload out), rw (new, e) refl, refl)
      | inr old ↦ (prune_sender u peer, rw old refl, prune_sender-config u peer)
    ]
feed-Returns h t (Input.up peer) r = (inject_neighbor_up t peer, refl, refl)
feed-Returns h t (Input.down peer) r = (inject_neighbor_down t peer, refl, refl)
feed-Returns h t (Input.prune peer) r = (inject_prune t peer, refl, refl)
feed-Returns h t (Input.publishes id payload now) r =
    (publish t id payload now, refl, publish-config t id payload now)
feed-Returns h t (Input.ihave peer id hop now) r = (inject_ihave t peer id hop now, refl, refl)
feed-Returns h t (Input.graft peer ids) r = (inject_graft t peer ids, refl, refl)

feed_all-Returns :
    (h : Host) (inputs : List Input) (t : PlumTree)
    → All (IsReadable h t.config) inputs
    → (u : PlumTree) × (feed_all h t inputs ≡ some u)
unfolding feed_all
feed_all-Returns h [] t r = (t, refl)
feed_all-Returns h (i ∷ rest) t r =
    let (u, e, same) = feed-Returns h t i r.0 in
    let (w, f) = feed_all-Returns h rest u (rw same r.1) in (w, rw (e, feed_all) f)

-- Between two ticks, with payloads that can be read, every run of calls goes through, and it queues a
-- message for delivery at most once; not at all if the message was already in the cache.
pub feed_all-delivers_once :
    (h : Host) (t : PlumTree) (inputs : List Input) (id : ℕ)
    → All (IsReadable h t.config) inputs
    → (u : PlumTree) × (feed_all h t inputs ≡ some u)
      × (deliveries id u.out_events ≤ deliveries id t.out_events + pending id t.received)
feed_all-delivers_once h t inputs id r =
    let (u, e) = feed_all-Returns h inputs t r in
    let b : budget id u ≤ budget id t = rw e at (feed_all-budget id h inputs t) in
    (u, e, omega (arith, b))
