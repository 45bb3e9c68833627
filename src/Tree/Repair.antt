-- ===== src/Tree/Repair.antt =====
-- PlumTree::repair_tree of src/network/episub/tree.rs: what the announcements that it reads ask for.
use irn.Base.{
  ℕ, ◌≡◌, refl, Bool, true, false, ◌&&◌, ◌||◌, none, some, List, [], ◌∷◌, ◌++◌, nat_eq, if_elim,
  if◌then◌else◌, Eq-ℕ, arith, nat_eq_iff,
}
use irn.Base.Keyed.{contains, whole, contains-append}
use irn.Cache.{MessageInfo, MessageRecord, record_item}
use irn.Cache
use irn.Rpc.{PeerId}
use irn.Tree.{PlumTree, Grafts, add_graft, consider, consider_all}

-- The message is not here.
abbrev pub IsMissing : PlumTree → ℕ → Type 0
IsMissing t id = Cache.get record_item t.received id ≡ none

-- The messages asked of one peer.
abbrev pub asked_of : PeerId → Grafts → List ℕ
asked_of p [] = []
asked_of p ((q, ids) ∷ rest) = if nat_eq q p then ids ++ asked_of p rest else asked_of p rest

asks-add_graft :
    (p q : PeerId) (id : ℕ) (ids : List ℕ) (g : Grafts)
    → contains whole id (asked_of p (add_graft q ids g))
      ≡ ((nat_eq q p && contains whole id ids) || contains whole id (asked_of p g))
unfolding add_graft
asks-add_graft p q id ids [] = ground (arith, contains-append whole id ids [])
asks-add_graft p q id ids ((r, asked) ∷ rest) =
    let before = contains whole id (asked_of p ((r, asked) ∷ rest)) in
    if_elim
      (λ g. contains whole id (asked_of p g) ≡ ((nat_eq q p && contains whole id ids) || before))
      (nat_eq r q)
      (λ hit. ground (
        arith,
        nat_eq_iff r q,
        contains-append whole id (asked ++ ids) (asked_of p rest),
        contains-append whole id asked ids,
        contains-append whole id asked (asked_of p rest),
      ))
      (λ miss. ground (
        arith,
        asks-add_graft p q id ids rest,
        contains-append whole id asked (asked_of p (add_graft q ids rest)),
        contains-append whole id asked (asked_of p rest),
      ))

-- Whether one announcement makes the node ask its sender for the message.
abbrev pub calls_for : PlumTree → PeerId → ℕ → MessageInfo → Bool
calls_for t p id o =
    nat_eq o.sender p
    && (nat_eq o.id id
        && (elim (Cache.get record_item t.received id) [ none ↦ true | some m ↦ false ]))

asks-consider :
    (t : PlumTree) (p : PeerId) (id : ℕ) (o : MessageInfo) (g : Grafts)
    → contains whole id (asked_of p (consider t o g))
      ≡ (calls_for t p id o || contains whole id (asked_of p g))
unfolding consider
asks-consider t p id o g = ground (
  arith,
  asks-add_graft p o.sender id [] g,
  asks-add_graft p o.sender id (o.id ∷ []) g,
  nat_eq_iff o.id id,
)

-- Whether some announcement of the list does.
abbrev pub called_for : PlumTree → PeerId → ℕ → List MessageInfo → Bool
called_for t p id [] = false
called_for t p id (o ∷ rest) = calls_for t p id o || called_for t p id rest

asks-consider_all :
    (t : PlumTree) (p : PeerId) (id : ℕ) (os : List MessageInfo) (g : Grafts)
    → contains whole id (asked_of p (consider_all t os g))
      ≡ (called_for t p id os || contains whole id (asked_of p g))
unfolding consider_all
asks-consider_all t p id [] g = refl
asks-consider_all t p id (o ∷ rest) g =
    ground (arith, asks-consider_all t p id rest (consider t o g), asks-consider t p id o g)

-- The announcements of a list make the node ask a peer for a message exactly when one of them, by that
-- peer, is of that message, and it is not here.
pub consider_all-asks :
    (t : PlumTree) (p : PeerId) (id : ℕ) (announced : List MessageInfo)
    → contains whole id (asked_of p (consider_all t announced [])) ≡ called_for t p id announced
consider_all-asks t p id announced = ground (arith, asks-consider_all t p id announced [])
