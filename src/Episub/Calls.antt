-- ===== src/Episub/Calls.antt =====
-- The calls that the swarm and the application make of an Episub, and its histories.
use irn.Base.{ℕ, String, Option, none, some, List, [], ◌∷◌}
use irn.Host.{Host}
use irn.Rpc.{PeerId, Bytes, Multiaddr, Rpc}
use irn.Episub.{
  Episub, ConnectedPoint, DialError, PollParameters, subscribe, _unsubscibe, publish,
  inject_connection_established, inject_new_listen_addr, inject_expired_listen_addr,
  inject_dial_failure, inject_connection_closed, inject_event, poll,
}

pub data Call : Type 0 where
  subscribes : (topic : String) (now : ℕ) → Call
  unsubscribes : (topic : String) → Call
  publishes : (topic : String) (message : Bytes) (now : ℕ) → Call
  connected : (peer : PeerId) (connection : ℕ) (endpoint : ConnectedPoint) → Call
  listens expires : (addr : Multiaddr) → Call
  fails : (peer : Option PeerId) (why : DialError) → Call
  closed : (peer : PeerId) → Call
  receives : (peer : PeerId) (connection : ℕ) (event : Rpc) (now : ℕ) → Call
  polls : (params : PollParameters) (now : ℕ) → Call

unfoldable pub call : Host → Episub → Call → Option Episub
call h e (Call.subscribes topic now) = some (subscribe e topic now).0
call h e (Call.unsubscribes topic) = some (_unsubscibe e topic).0
call h e (Call.publishes topic message now) = some (publish h e topic message now).0
call h e (Call.connected peer connection endpoint) =
    inject_connection_established h e peer connection endpoint
call h e (Call.listens addr) = some (inject_new_listen_addr e addr)
call h e (Call.expires addr) = some (inject_expired_listen_addr e addr)
call h e (Call.fails peer why) = some (inject_dial_failure h e peer why)
call h e (Call.closed peer) = some (inject_connection_closed h e peer)
call h e (Call.receives peer connection event now) = inject_event h e peer connection event now
call h e (Call.polls params now) = elim (poll h e params now) [ none ↦ none | some r ↦ some r.1 ]

unfoldable pub run : Host → Episub → List Call → Option Episub
run h e [] = some e
run h e (c ∷ rest) = elim (call h e c) [ none ↦ none | some u ↦ run h u rest ]
