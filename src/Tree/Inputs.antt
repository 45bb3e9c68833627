-- ===== src/Tree/Inputs.antt =====
-- The calls that feed a PlumTree between two ticks, and their runs.
use irn.Base.{ℕ, Option, none, some, List, [], ◌∷◌}
use irn.Host.{Host}
use irn.Rpc.{PeerId, Bytes}
use irn.Tree.{
  PlumTree, inject_neighbor_up, inject_neighbor_down, publish, inject_message, inject_ihave,
  inject_prune, inject_graft,
}

pub data Input : Type 0 where
  up down prune : (peer : PeerId) → Input
  publishes : (id : ℕ) (payload : Bytes) (now : ℕ) → Input
  message : (peer : PeerId) (id hop : ℕ) (payload : Bytes) (now : ℕ) → Input
  ihave : (peer : PeerId) (id hop now : ℕ) → Input
  graft : (peer : PeerId) (ids : List ℕ) → Input

unfoldable pub feed : Host → PlumTree → Input → Option PlumTree
feed h t (Input.up peer) = some (inject_neighbor_up t peer)
feed h t (Input.down peer) = some (inject_neighbor_down t peer)
feed h t (Input.prune peer) = some (inject_prune t peer)
feed h t (Input.publishes id payload now) = some (publish t id payload now)
feed h t (Input.message peer id hop payload now) = inject_message h t peer id hop payload now
feed h t (Input.ihave peer id hop now) = some (inject_ihave t peer id hop now)
feed h t (Input.graft peer ids) = some (inject_graft t peer ids)

unfoldable pub feed_all : Host → PlumTree → List Input → Option PlumTree
feed_all h t [] = some t
feed_all h t (i ∷ rest) = elim (feed h t i) [ none ↦ none | some u ↦ feed_all h u rest ]
