-- ===== src/Tree/Budget.antt =====
-- What a run of calls to the tree may still deliver of one message.
use irn.Base.{
  ℕ, suc, ◌%◌, ◌^◌, ◌+◌, ◌≤◌, ◌≡◌, refl, true, not, ◌&&◌, Option, none, some, List, [], ◌∷◌, ◌++◌,
  map, filter_map, retain, nat_eq, if_elim, if◌then◌else◌, Eq-ℕ, arith, inl, inr, Option-cases,
  nat_eq_iff,
}
use irn.Base.Keyed.{contains, whole}
use native.Mathlib.Nat.{le_refl, le_trans}
use irn.Cache.{ExpiringCache, MessageRecord, record_item, info_item}
use irn.Cache
use irn.Cache.Lookup.{insert-answer, get-insert}
use irn.Host.{Host}
use irn.Rpc.{PeerId, Bytes, Action, NetworkAction, EpisubEvent}
use irn.Tree.{
  PlumTree, notify, to_message, publish, inject_message, inject_graft, inject_neighbor_up,
  inject_neighbor_down, inject_ihave, inject_prune, delivered_payload, forward_message,
  prune_sender,
}
use irn.Tree.Inputs.{Input, feed, feed_all}

-- How often a queue delivers the message.
abbrev pub deliveries : ℕ → List NetworkAction → ℕ
deliveries id [] = 0
deliveries id (NetworkAction.generate_event (EpisubEvent.message_received t i p) ∷ rest) =
    if nat_eq i id then suc (deliveries id rest) else deliveries id rest
deliveries id (_ ∷ rest) = deliveries id rest

deliveries-append :
    (id : ℕ) (xs ys : List NetworkAction)
    → deliveries id (xs ++ ys) ≡ deliveries id xs + deliveries id ys
deliveries-append id [] ys = omega arith
deliveries-append id (NetworkAction.generate_event (EpisubEvent.message_received t i p) ∷ xs) ys =
    ground (arith, deliveries-append id xs ys)
deliveries-append id (NetworkAction.generate_event (EpisubEvent.subscribed t) ∷ xs) ys =
    deliveries-append id xs ys
deliveries-append id (NetworkAction.generate_event (EpisubEvent.peer_added t) ∷ xs) ys =
    deliveries-append id xs ys
deliveries-append id (NetworkAction.generate_event (EpisubEvent.peer_removed t) ∷ xs) ys =
    deliveries-append id xs ys
deliveries-append id (NetworkAction.generate_event (EpisubEvent.unsubscribed t) ∷ xs) ys =
    deliveries-append id xs ys
deliveries-append id (NetworkAction.notify_handler p e ∷ xs) ys = deliveries-append id xs ys
deliveries-append id (NetworkAction.dial p a m t ∷ xs) ys = deliveries-append id xs ys
deliveries-append id (NetworkAction.close_connection p c ∷ xs) ys = deliveries-append id xs ys

-- Messages to peers deliver nothing.
deliveries-map {ℓ} :
    {A : Type ℓ} (id : ℕ) (t : PlumTree) (f : A → Action) (p : A → PeerId) (xs : List A)
    → deliveries id (map (λ x. notify t (f x) (p x)) xs) ≡ 0
deliveries-map id t f p [] = refl
deliveries-map id t f p (x ∷ xs) = deliveries-map id t f p xs

-- One while the message may still be delivered, and none once it is here.
abbrev pub pending : ℕ → ExpiringCache MessageRecord → ℕ
pending id c = elim (Cache.get record_item c id) [ none ↦ 1 | some m ↦ 0 ]

module _ (id : ℕ) (c : ExpiringCache MessageRecord) (m : MessageRecord) (now : ℕ) where
  pending-insert : pending id (Cache.insert record_item c m now).0 ≤ pending id c
  pending-insert = ground (arith, get-insert record_item c m now id)

  pending-insert_new :
      (Cache.insert record_item c m now).1 ≡ true
      → pending id (Cache.insert record_item c m now).0 + (if nat_eq m.id id then 1 else 0)
        ≤ pending id c
  pending-insert_new new = ground (
    arith,
    get-insert record_item c m now id,
    insert-answer record_item c m now,
    nat_eq_iff m.id id,
  )

-- The deliveries queued so far, and the one that may come.
abbrev pub budget : ℕ → PlumTree → ℕ
budget id t = deliveries id t.out_events + pending id t.received

-- A property of the result, if there is one.
abbrev pub OnSome : (PlumTree → Type 0) → Option PlumTree → Type 0
OnSome P none = Unit
OnSome P (some u) = P u

OnSome-mono :
    (P Q : PlumTree → Type 0) (o : Option PlumTree)
    → ((u : PlumTree) → P u → Q u)
    → OnSome P o
    → OnSome Q o
OnSome-mono P Q none f p = tt
OnSome-mono P Q (some u) f p = f u p

module _ (id : ℕ) (t : PlumTree) where
  publish-budget :
      (i : ℕ) (payload : Bytes) (now : ℕ) → budget id (publish t i payload now) ≤ budget id t
  unfolding publish
  publish-budget i payload now = elim (Option-cases (Cache.get record_item t.received i)) [
    | inr (m, e) ↦ rw (e, publish) (le_refl (budget id t))
    | inl e ↦ elim (Option-cases (Cache.get info_item t.observed i)) [
      | inr (m, f) ↦ rw (e, f, publish) (le_refl (budget id t))
      | inl f ↦
          let message : MessageRecord = record {
            id = i;
            payload = payload;
            hop = 1;
            sender = t.local_node;
          } in
          rw (e, f, publish)
            (omega (
              arith,
              deliveries-append id t.out_events (map (notify t (to_message message)) t.eager),
              deliveries-map id t (λ p. to_message message) whole t.eager,
              pending-insert id t.received (record message { hop = 0 }) now,
            ))
    ]
  ]

  deliveries-forward :
      (peer : PeerId) (i hop : ℕ) (payload out : Bytes)
      → deliveries id (t.out_events ++ forward_message t peer i hop payload out)
        ≡ deliveries id t.out_events + (if nat_eq i id then 1 else 0)
  unfolding forward_message
  deliveries-forward peer i hop payload out =
      let others = retain (λ p. not (nat_eq p peer)) t.eager in
      ground (
        arith,
        deliveries-append id t.out_events (forward_message t peer i hop payload out),
        deliveries-map id t (λ p. Action.message i ((hop + 1) % 2 ^ 32) payload) whole others,
      )

  prune_sender-budget : (peer : PeerId) → budget id (prune_sender t peer) ≤ budget id t
  unfolding prune_sender inject_prune
  prune_sender-budget peer =
      if_elim (λ u. budget id u ≤ budget id t)
        (t.config.optimize_sender_tree && contains whole peer t.eager)
        (λ _. omega (arith, deliveries-append id t.out_events (notify t Action.prune peer ∷ [])))
        (λ _. le_refl (budget id t))

  inject_graft-budget :
      (peer : PeerId) (ids : List ℕ) → budget id (inject_graft t peer ids) ≤ budget id t
  unfolding inject_graft
  inject_graft-budget peer ids =
      let found = filter_map (Cache.get record_item t.received) ids in
      omega (
        arith,
        deliveries-append id t.out_events (map (λ m. notify t (to_message m) peer) found),
        deliveries-map id t to_message (λ m. peer) found,
      )

module _ (id : ℕ) (h : Host) (t : PlumTree) where
  inject_message-budget :
      (peer : PeerId) (i hop : ℕ) (payload : Bytes) (now : ℕ)
      → OnSome (λ u. budget id u ≤ budget id t) (inject_message h t peer i hop payload now)
  unfolding inject_message
  inject_message-budget peer i hop payload now =
      let m : MessageRecord = record { id = i; hop = hop; payload = payload; sender = peer } in
      let inserted = Cache.insert record_item t.received m now in
      let u : PlumTree = record t { received = inserted.0 } in
      if_elim (OnSome (λ u. budget id u ≤ budget id t)) inserted.1
        (λ new. elim (Option-cases (delivered_payload h t.config payload)) [
          | inl e ↦ rw e tt
          | inr (out, e) ↦ rw e (
              omega (
                arith,
                deliveries-forward id t peer i hop payload out,
                pending-insert_new id t.received m now new,
              ))
        ])
        (λ old. omega (arith, prune_sender-budget id u peer, pending-insert id t.received m now))

  feed-budget : (i : Input) → OnSome (λ u. budget id u ≤ budget id t) (feed h t i)
  unfolding feed inject_neighbor_up inject_neighbor_down inject_prune inject_ihave
  feed-budget (Input.up peer) = le_refl (budget id t)
  feed-budget (Input.down peer) = le_refl (budget id t)
  feed-budget (Input.prune peer) = le_refl (budget id t)
  feed-budget (Input.publishes i payload now) = publish-budget id t i payload now
  feed-budget (Input.message peer i hop payload now) = inject_message-budget peer i hop payload now
  feed-budget (Input.ihave peer i hop now) = le_refl (budget id t)
  feed-budget (Input.graft peer ids) = inject_graft-budget id t peer ids

pub feed_all-budget :
    (id : ℕ) (h : Host) (inputs : List Input) (t : PlumTree)
    → OnSome (λ u. budget id u ≤ budget id t) (feed_all h t inputs)
unfolding feed_all
feed_all-budget id h [] t = le_refl (budget id t)
feed_all-budget id h (i ∷ rest) t = elim (Option-cases (feed h t i)) [
  | inl e ↦ rw (e, feed_all) tt
  | inr (u, e) ↦
      let first : budget id u ≤ budget id t = rw e at (feed-budget id h t i) in
      rw (e, feed_all)
        (OnSome-mono (λ w. budget id w ≤ budget id u) (λ w. budget id w ≤ budget id t)
          (feed_all h u rest) (λ w le. le_trans le first) (feed_all-budget id h rest u))
]
