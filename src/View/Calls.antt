-- ===== src/View/Calls.antt =====
-- The calls that drive a HyParView, and the histories of a view with the listener that its poll
-- feeds: TopicMesh (src/network/episub/topic.rs) polls the view and hears of its members that way.
use irn.Base.{ℕ, Bool, List}
use irn.Host.{Host}
use irn.Rpc.{PeerId, AddressablePeer, PeerRecord}
use irn.View.{
  HyParView, initiate_join, inject_join, inject_forward_join, inject_neighbor, inject_disconnect,
  inject_shuffle, inject_shuffle_reply,
}

-- A control message, as the handlers receive it.
pub data Call : Type 0 where
  join_to : (peer : AddressablePeer) → Call
  join : (sender : PeerId) (peer : AddressablePeer) (ttl : ℕ) → Call
  forward_join : (peer : AddressablePeer) (ttl : ℕ) (local_node sender : PeerId) → Call
  neighbor : (peer : AddressablePeer) (priority : ℕ) → Call
  disconnect : (peer : PeerId) (alive : Bool) → Call
  shuffle :
      (from : PeerId) (ttl : ℕ) (nodes : List AddressablePeer) (origin : AddressablePeer) → Call
  shuffle_reply : (nodes : List PeerRecord) → Call

unfoldable pub handle : Host → HyParView → Call → HyParView
handle h v (Call.join_to peer) = initiate_join h v peer
handle h v (Call.join sender peer ttl) = inject_join h v sender peer ttl
handle h v (Call.forward_join peer ttl local_node sender) =
    inject_forward_join h v peer ttl local_node sender
handle h v (Call.neighbor peer priority) = inject_neighbor h v peer priority
handle h v (Call.disconnect peer alive) = inject_disconnect h v peer alive
handle h v (Call.shuffle from ttl nodes origin) = inject_shuffle h v from ttl nodes origin
handle h v (Call.shuffle_reply nodes) = inject_shuffle_reply h v nodes
