-- ===== src/Topic/Calls.antt =====
-- The calls that Episub (src/network/episub/behaviour.rs) makes of a TopicMesh, and the histories of a
-- mesh.
use irn.Base.{ℕ, Bool, Option, none, some, List, [], ◌∷◌}
use irn.Host.{Host}
use irn.Rpc.{PeerId, Bytes, AddressablePeer, Rpc}
use irn.Topic.{TopicMesh, Outcome, disconnected, initiate_join, publish, inject_rpc_call, poll}

pub data Call : Type 0 where
  loses : (peer : PeerId) (alive : Bool) → Call
  joins : (peer : AddressablePeer) → Call
  publishes : (id : ℕ) (payload : Bytes) (now : ℕ) → Call
  receives : (from : PeerId) (event : Rpc) (now : ℕ) → Call
  polls : (now : ℕ) → Call

-- The mesh after a call, whatever its answer, unless it panics.
abbrev pub mesh_of : Outcome → Option TopicMesh
mesh_of (Outcome.ingested m) = some m
mesh_of (Outcome.rejected e m) = some m
mesh_of Outcome.panicked = none

unfoldable pub call : Host → TopicMesh → Call → Option TopicMesh
call h m (Call.loses peer alive) = some (disconnected h m peer alive)
call h m (Call.joins peer) = some (initiate_join h m peer)
call h m (Call.publishes id payload now) = some (publish m id payload now)
call h m (Call.receives from event now) = mesh_of (inject_rpc_call h m from event now)
call h m (Call.polls now) = elim (poll h m now) [ none ↦ none | some r ↦ some r.1 ]

unfoldable pub run : Host → TopicMesh → List Call → Option TopicMesh
run h m [] = some m
run h m (c ∷ rest) = elim (call h m c) [ none ↦ none | some u ↦ run h u rest ]
