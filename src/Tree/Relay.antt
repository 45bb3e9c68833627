-- ===== src/Tree/Relay.antt =====
-- One hop of a message: from the tree that publishes it to that of an eager peer.
use irn.Base.{
  ℕ, zero, suc, ◌≡◌, refl, sym, ap, subst, ◌∙◌, true, Option, none, some, List, [], ◌∷◌, ◌++◌, map,
  get_elem?, get_elem?-map, arith, Bool-cases, inl, inr, Eq-ℕ, if◌then◌else◌,
}
use irn.Base.Keyed.{contains, whole}
use irn.Cache
use irn.Cache.{MessageRecord, record_item, info_item}
use irn.Cache.Lookup.{insert-answer}
use irn.Config.{Config}
use irn.Host.{Host}
use irn.Rpc.{PeerId, Bytes, Action, EpisubEvent, NetworkAction}
use irn.Tree.{
  PlumTree, publish, inject_message, delivered_payload, forward_message, emit_all, notify,
}

-- The sequence has the element.
abbrev pub Holds : {A : Type 0} → A → List A → Type 0
Holds a xs = (i : ℕ) × (get_elem? xs i ≡ some a)

Holds-append : {A : Type 0} (a : A) (xs ys : List A) → Holds a ys → Holds a (xs ++ ys)
Holds-append a [] ys h = h
Holds-append a (x ∷ xs) ys h = let (i, e) = Holds-append a xs ys h in (suc i, e)

Holds-contains : (p : PeerId) (ps : List PeerId) → contains whole p ps ≡ true → Holds p ps
Holds-contains p [] h = cc
Holds-contains p (q ∷ ps) h = elim (Bool-cases (Eq-ℕ.beq q p)) [
  | inl same ↦ (zero, ap some ((Eq-ℕ.beq_iff q p).0 same))
  | inr other ↦ let (i, e) = Holds-contains p ps (ground arith) in (suc i, e)
]

-- What a node sends of a payload.
abbrev pub packed_payload : Host → Config → Bytes → Option Bytes
packed_payload h c payload =
    if c.enable_compression then h.encode_all payload c.compression_level else some payload

-- zstd gives back what it has compressed.
abbrev pub Unpacks : Host → Type 0
Unpacks h =
    (b : Bytes) (level : ℕ) (z : Bytes) → h.encode_all b level ≡ some z → h.decode_all z ≡ some b

pub delivered_payload-packed_payload :
    (h : Host) (c d : Config) (payload packed : Bytes)
    → Unpacks h
    → c.enable_compression ≡ d.enable_compression
    → packed_payload h c payload ≡ some packed
    → delivered_payload h d packed ≡ some payload
unfolding delivered_payload
delivered_payload-packed_payload h c d payload packed l same e =
    ground (arith, l payload c.compression_level packed)

-- A new message is queued for every eager peer.
pub publish-Holds :
    (t : PlumTree) (peer : PeerId) (id : ℕ) (payload : Bytes) (now : ℕ)
    → Cache.get record_item t.received id ≡ none
    → Cache.get info_item t.observed id ≡ none
    → contains whole peer t.eager ≡ true
    → Holds (notify t (Action.message id 1 payload) peer) (publish t id payload now).out_events
unfolding publish
publish-Holds t peer id payload now fresh unseen eager =
    let (i, e) = Holds-contains peer t.eager eager in
    let sent = map (notify t (Action.message id 1 payload)) t.eager in
    let queued : (publish t id payload now).out_events ≡ t.out_events ++ sent = ground arith in
    subst (Holds (notify t (Action.message id 1 payload) peer)) (sym queued) (
      Holds-append (notify t (Action.message id 1 payload) peer) t.out_events sent
        (i, get_elem?-map (notify t (Action.message id 1 payload)) t.eager i e))

-- A message that is new to a tree and can be read is queued for its node.
pub inject_message-Holds :
    (h : Host) (t : PlumTree) (from : PeerId) (id hop : ℕ) (packed payload : Bytes) (now : ℕ)
    → Cache.get record_item t.received id ≡ none
    → delivered_payload h t.config packed ≡ some payload
    → (u : PlumTree) × (inject_message h t from id hop packed now ≡ some u)
      × Holds
          (NetworkAction.generate_event (EpisubEvent.message_received t.topic id payload))
          u.out_events
unfolding inject_message forward_message
inject_message-Holds h t from id hop packed payload now fresh read_ =
    let m : MessageRecord = record { id = id; hop = hop; payload = packed; sender = from } in
    let inserted = Cache.insert record_item t.received m now in
    let v : PlumTree = record t { received = inserted.0 } in
    let new_ : inserted.1 ≡ true = insert-answer record_item t.received m now ∙ rw fresh refl in
    (
      emit_all v (forward_message v from id hop packed payload),
      rw (new_, read_) refl,
      Holds-append (NetworkAction.generate_event (EpisubEvent.message_received t.topic id payload))
          t.out_events (forward_message v from id hop packed payload) (zero, refl),
    )
