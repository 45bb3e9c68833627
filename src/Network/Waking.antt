-- ===== src/Network/Waking.antt =====
-- The histories of a network: the rounds of its task in any order, and what the node sends meanwhile.
use irn.Base.{List, [], ◌∷◌, Result, ok, err, Eq-String}
use irn.Episub.{Episub}
use irn.Host.{Host}
use irn.Network.{Bincode, Network, NetworkCommand, Wake, wake, send, poll_events}
use irn.Primitives.{Hasher}

pub data Activity : Type 0 where
  woken : Wake → Activity
  sent : NetworkCommand → Activity
  received : Activity

abbrev or_same : Network → Result NetworkCommand Network → Network
or_same n (ok u) = u
or_same n (err command) = n

module _ (h : Host) (c : Bincode) (s : Hasher) where
  unfoldable pub act : Network → Activity → Network
  act n (Activity.woken w) = wake h c s n w
  act n (Activity.sent command) = or_same n (send n command)
  act n Activity.received = (poll_events n).0

  unfoldable pub run_all : Network → List Activity → Network
  run_all n [] = n
  run_all n (a ∷ rest) = run_all (act n a) rest
