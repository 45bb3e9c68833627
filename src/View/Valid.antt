-- ===== src/View/Valid.antt =====
-- The invariant of a HyParView: its views are sets, this node is no member of its own active view,
-- and the passive view stays within its limit.
use irn.Base.{
  filter_map, ℕ, zero, suc, ◌+◌, ◌≤◌, ◌≡◌, refl, Bool, true, false, none, some, List, [], ◌∷◌,
  length, nat_eq, ltb, if_elim, Option-cases, inl, inr, Eq-ℕ, arith, ltb→le, ap, not,
  length-retain-le,
}
use irn.Base.Keyed.{
  union, of_list, contains, insert, Distinct, Distinct-insert, Distinct-union, Distinct-of_list,
  Distinct-retain, contains-insert, contains-retain, length-insert-le, length-remove,
  contains-get_elem?,
}
use irn.Config.{max_passive_view_size}
use irn.Host.{Host, IsLawful}
use irn.Rpc.{AddressablePeer, NetworkAction, EpisubEvent}
use irn.View.State.{
  HyParView, peer_key, emit, add_node_to_active_view, add_node_to_passive_view, trim_passive,
}
use irn.View.{drain_excess, try_from, inject_shuffle_reply}
use irn.View.Moves.{Move, Moves}

pub record IsValid (v : HyParView) : Type 0 where
  pub active_distinct : Distinct peer_key v.active
  pub passive_distinct : Distinct peer_key v.passive
  pub no_self : contains peer_key v.local_node.peer_id v.active ≡ false
  pub passive_bound : length v.passive ≤ max_passive_view_size v.config

-- What is drawn from a sequence is one of its members.
pub choose-contains :
    {h : Host} (laws : IsLawful h) (n : ℕ) (xs : List AddressablePeer) {x : AddressablePeer}
    → h.choose n xs ≡ some x
    → contains peer_key x.peer_id xs ≡ true
choose-contains laws n [] e = ground (arith, laws.choose_nil n)
choose-contains {h} laws n (y ∷ ys) {x} e =
    let (i, z, chosen, at) = laws.choose_cons n y ys in
    contains-get_elem? peer_key (y ∷ ys) i x (ground arith)

pub choose_some :
    {h : Host} (laws : IsLawful h) (n : ℕ) (xs : List AddressablePeer)
    → h.choose n xs ≡ none
    → xs ≡ []
choose_some laws n [] e = refl
choose_some laws n (y ∷ ys) e = let (i, z, chosen, at) = laws.choose_cons n y ys in ground arith

-- The fuel of the loop is enough: it ends with the view within its limit.
pub drain_excess_bound :
    (max : ℕ) (xs : List AddressablePeer) → length (drain_excess (suc (length xs)) max xs) ≤ max
unfolding drain_excess
drain_excess_bound max [] = ground arith
drain_excess_bound max (x ∷ xs) = ground arith

module _ {h : Host} (laws : IsLawful h) where
  trim_passive-IsValid :
      (v : HyParView)
      → Distinct peer_key v.active
      → contains peer_key v.local_node.peer_id v.active ≡ false
      → Distinct peer_key v.passive
      → length v.passive ≤ max_passive_view_size v.config + 1
      → IsValid (trim_passive h v)
  unfolding trim_passive
  trim_passive-IsValid v a n d b =
      if_elim IsValid (ltb (max_passive_view_size v.config) (length v.passive))
        (λ _. elim (Option-cases (h.choose v.draws v.passive)) [
          | inl e ↦ rw (e) (record {
            active_distinct = a;
            passive_distinct = d;
            no_self = n;
            passive_bound = omega (arith, ap length (choose_some laws v.draws v.passive e));
          })
          | inr (r, e) ↦ rw (e) (record {
            active_distinct = a;
            passive_distinct = Distinct-retain peer_key _ v.passive d;
            no_self = n;
            passive_bound = omega (
              arith,
              length-remove peer_key r.peer_id v.passive (choose-contains laws v.draws v.passive e),
            );
          })
        ])
        (λ fits. record {
          active_distinct = a;
          passive_distinct = d;
          no_self = n;
          passive_bound = ltb→le _ _ fits;
        })

  activate-IsValid :
      (v : HyParView) (node : AddressablePeer) (initiator : Bool)
      → IsValid v
      → IsValid (add_node_to_active_view h v node initiator)
  unfolding add_node_to_active_view
  activate-IsValid v node initiator i =
      if_elim IsValid (nat_eq node.peer_id v.local_node.peer_id) (λ _. i)
        λ other.
          if_elim IsValid (contains peer_key node.peer_id v.active) (λ _. i)
            λ fresh.
              let w : HyParView = record v { active = insert peer_key node v.active } in
              let d = Distinct-insert peer_key node v.active i.active_distinct in
              let n : contains peer_key v.local_node.peer_id w.active ≡ false =
                ground (arith, contains-insert peer_key v.local_node.peer_id node v.active) in
              if_elim
                (λ u.
                  IsValid
                    (emit u (NetworkAction.generate_event (EpisubEvent.peer_added node.peer_id))))
                initiator
                (λ _. record {
                  active_distinct = d;
                  passive_distinct = i.passive_distinct;
                  no_self = n;
                  passive_bound = i.passive_bound;
                })
                (λ _. record {
                  active_distinct = d;
                  passive_distinct = i.passive_distinct;
                  no_self = n;
                  passive_bound = i.passive_bound;
                })

  passivate-IsValid :
      (v : HyParView) (node : AddressablePeer)
      → IsValid v
      → IsValid (add_node_to_passive_view h v node)
  unfolding add_node_to_passive_view
  passivate-IsValid v node i =
      if_elim IsValid (nat_eq node.peer_id v.local_node.peer_id) (λ _. i)
        λ _.
          trim_passive-IsValid (record v { passive = insert peer_key node v.passive })
            i.active_distinct i.no_self (Distinct-insert peer_key node v.passive i.passive_distinct)
            (omega (arith, length-insert-le peer_key node v.passive, i.passive_bound))

  drain_excess-Distinct :
      (fuel max : ℕ) (xs : List AddressablePeer)
      → Distinct peer_key xs
      → Distinct peer_key (drain_excess fuel max xs)
  unfolding drain_excess
  drain_excess-Distinct zero max xs d = d
  drain_excess-Distinct (suc fuel) max xs d = ground (arith, drain_excess-Distinct fuel max [] tt)

  Move-IsValid : {v w : HyParView} → Move h v w → IsValid v → IsValid w
  unfolding inject_shuffle_reply
  Move-IsValid {v} (Move.activate node initiator) i = activate-IsValid v node initiator i
  Move-IsValid {v} (Move.passivate node) i = passivate-IsValid v node i
  Move-IsValid {v} (Move.deactivate peer actions q) i = record {
    active_distinct = Distinct-retain peer_key _ v.active i.active_distinct;
    passive_distinct = i.passive_distinct;
    no_self = contains-retain peer_key v.local_node.peer_id _ v.active i.no_self;
    passive_bound = i.passive_bound;
  }
  Move-IsValid {v} (Move.forget peer) i = record {
    active_distinct = i.active_distinct;
    passive_distinct = Distinct-retain peer_key _ v.passive i.passive_distinct;
    no_self = i.no_self;
    passive_bound = omega (
      arith,
      length-retain-le (λ (p : AddressablePeer). not (nat_eq p.peer_id peer)) v.passive,
      i.passive_bound,
    );
  }
  Move-IsValid {v} (Move.absorb nodes) i =
      let limit = max_passive_view_size v.config in
      let known = of_list peer_key (filter_map (try_from h) nodes) in
      let merged = union peer_key v.passive known in
      let d =
        Distinct-union peer_key v.passive known i.passive_distinct
          (Distinct-of_list peer_key (filter_map (try_from h) nodes)) in
      record {
        active_distinct = i.active_distinct;
        passive_distinct = drain_excess-Distinct (suc (length merged)) limit merged d;
        no_self = i.no_self;
        passive_bound = drain_excess_bound limit merged;
      }
  Move-IsValid (Move.say actions q) i = record {
    active_distinct = i.active_distinct;
    passive_distinct = i.passive_distinct;
    no_self = i.no_self;
    passive_bound = i.passive_bound;
  }
  Move-IsValid (Move.tick d t u) i = record {
    active_distinct = i.active_distinct;
    passive_distinct = i.passive_distinct;
    no_self = i.no_self;
    passive_bound = i.passive_bound;
  }

  pub Moves-IsValid : {v w : HyParView} → Moves h v w → IsValid v → IsValid w
  Moves-IsValid Moves.here i = i
  Moves-IsValid (Moves.next r st) i = Move-IsValid st (Moves-IsValid r i)
