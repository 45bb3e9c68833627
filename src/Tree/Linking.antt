-- ===== src/Tree/Linking.antt =====
-- The links of a tree over its whole history, against what its calls ask for.
use irn.Base.{
  ℕ, ◌≡◌, refl, ap, ◌∙◌, Bool, Option, some, List, [], ◌∷◌, Option-cases, inl, inr, arith, Eq-ℕ,
}
use irn.Host.{Host}
use irn.Rpc.{PeerId, NetworkAction}
use irn.Tree.{PlumTree, poll}
use irn.Tree.Clock.{Step, advance_all}
use irn.Tree.Inputs.{feed}
use irn.Tree.Links.{is_linked, asked, feed-links, SameLinks, poll-SameLinks}

-- Whether the peer should be linked after the steps, by the last call that says so.
abbrev pub linked_after : List Step → PeerId → Bool → Bool
linked_after [] k b = b
linked_after (Step.feeds input ∷ rest) k b = linked_after rest k (asked input k b)
linked_after (Step.polls now ∷ rest) k b = linked_after rest k b

module _ (h : Host) where
  poll-links :
      (t : PlumTree) (now : ℕ) (k : PeerId) {a : Option NetworkAction} {u : PlumTree}
      → poll h t now ≡ some (a, u)
      → is_linked u k ≡ is_linked t k
  poll-links t now k {a} {u} e =
      let same : SameLinks t u = poll-SameLinks h now t e in rw (same.eager_links, same.lazy_links)

  -- After every history of calls and polls that goes through, a peer has a link, eager or lazy, exactly if
  -- the last call about it was a NeighborUp, a PRUNE or a GRAFT; without such a call, exactly if it had one
  -- before. Messages, announcements, repairs and polls add and drop no link.
  pub advance_all-links :
      (t : PlumTree) (steps : List Step) (k : PeerId) {u : PlumTree}
      → advance_all h t steps ≡ some u
      → is_linked u k ≡ linked_after steps k (is_linked t k)
  advance_all-links t [] k {u} e = let same : t ≡ u = ground arith in rw same refl
  advance_all-links t (Step.feeds input ∷ rest) k {u} e = elim (Option-cases (feed h t input)) [
    | inl f ↦ absurd (ground arith)
    | inr (w, f) ↦
        advance_all-links w rest k {u = u} (ground arith)
        ∙ ap (linked_after rest k) (feed-links h t input k f)
  ]
  advance_all-links t (Step.polls now ∷ rest) k {u} e = elim (Option-cases (poll h t now)) [
    | inl f ↦ absurd (ground arith)
    | inr ((a, w), f) ↦
        advance_all-links w rest k {u = u} (ground arith)
        ∙ ap (linked_after rest k) (poll-links t now k {a = a} f)
  ]
