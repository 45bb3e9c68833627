-- ===== src/View/Gossip.antt =====
-- Who hears of a joining peer: the FORWARDJOIN messages of src/network/episub/view.rs.
use irn.Base.{
  ℕ, suc, ◌-◌, ◌≡◌, ◌≢◌, refl, ap, ◌∙◌, Bool, false, not, ◌&&◌, some, List, [], ◌∷◌, ◌++◌, map,
  nat_eq, retain, if◌then◌else◌, Eq-ℕ, arith, nat_eq_iff, beq_of_ne,
}
use irn.Base.Keyed.{contains, Distinct}
use irn.Host.{Host}
use irn.Rpc.{PeerId, AddressablePeer, Rpc, Action, NetworkAction}
use irn.View.State.{HyParView, peer_key, to_record}
use irn.View.{others, welcome, forward_to_others, inject_forward_join}

-- The messages of a queue that go to one peer, in order.
abbrev pub sent_to : PeerId → List NetworkAction → List Rpc
sent_to k [] = []
sent_to k (NetworkAction.notify_handler p e ∷ rest) =
    if nat_eq p k then e ∷ sent_to k rest else sent_to k rest
sent_to k (NetworkAction.generate_event e ∷ rest) = sent_to k rest
sent_to k (NetworkAction.dial p a m t ∷ rest) = sent_to k rest
sent_to k (NetworkAction.close_connection p c ∷ rest) = sent_to k rest

pub sent_to-append :
    (k : PeerId) (xs ys : List NetworkAction) → sent_to k (xs ++ ys) ≡ sent_to k xs ++ sent_to k ys
sent_to-append k [] ys = refl
sent_to-append k (NetworkAction.notify_handler p e ∷ xs) ys = ground (arith, sent_to-append k xs ys)
sent_to-append k (NetworkAction.generate_event e ∷ xs) ys = sent_to-append k xs ys
sent_to-append k (NetworkAction.dial p a m t ∷ xs) ys = sent_to-append k xs ys
sent_to-append k (NetworkAction.close_connection p c ∷ xs) ys = sent_to-append k xs ys

abbrev told : PeerId → PeerId → List AddressablePeer → List AddressablePeer
told a b = retain (λ n. not (nat_eq n.peer_id a) && not (nat_eq n.peer_id b))

-- One message to each member but two.
abbrev pub is_told : PeerId → PeerId → PeerId → List AddressablePeer → Bool
is_told k a b xs = contains peer_key k xs && (not (nat_eq k a) && not (nat_eq k b))

sent_absent :
    (k a b : PeerId) (e : Rpc) (xs : List AddressablePeer)
    → contains peer_key k xs ≡ false
    → sent_to k (map (λ n. NetworkAction.notify_handler n.peer_id e) (told a b xs)) ≡ []
sent_absent k a b e [] absent = refl
sent_absent k a b e (x ∷ xs) absent = ground (arith, sent_absent k a b e xs)

sent_told :
    (k a b : PeerId) (e : Rpc) (xs : List AddressablePeer)
    → Distinct peer_key xs
    → sent_to k (map (λ n. NetworkAction.notify_handler n.peer_id e) (told a b xs))
      ≡ (if is_told k a b xs then e ∷ [] else [])
sent_told k a b e [] d = refl
sent_told k a b e (x ∷ xs) d =
    ground (arith, sent_told k a b e xs d.1, sent_absent k a b e xs, nat_eq_iff x.peer_id k)

forward_to_others-sent :
    (h : Host) (v : HyParView) (sender k : PeerId) (peer : AddressablePeer) (ttl : ℕ)
    → Distinct peer_key v.active
    → sent_to k (forward_to_others h v sender peer ttl).out_events
      ≡ sent_to k v.out_events
        ++ (if is_told k peer.peer_id sender v.active
            then record {
              topic = v.topic;
              action = some (Action.forward_join ttl (to_record h peer));
            }
              ∷ []
            else [])
unfolding forward_to_others others
forward_to_others-sent h v sender k peer ttl d =
    sent_to-append k v.out_events _
    ∙ ap (◌++◌ (sent_to k v.out_events)) (sent_told k peer.peer_id sender _ v.active d)

-- A FORWARDJOIN that may still travel, of another node: once the joiner has been welcomed, each member
-- of the active view but the joiner and the sender is sent the request once, with a time to live that
-- is one less; no other peer is sent it.
pub inject_forward_join-sent :
    (h : Host) (v : HyParView) (peer : AddressablePeer) (ttl : ℕ) (local_node sender k : PeerId)
    → peer.peer_id ≢ local_node
    → let w = welcome h v peer in
      Distinct peer_key w.active
      → sent_to k (inject_forward_join h v peer (suc ttl) local_node sender).out_events
        ≡ sent_to k w.out_events
          ++ (if is_told k peer.peer_id sender w.active
              then record {
                topic = w.topic;
                action = some (Action.forward_join ttl (to_record h peer));
              }
                ∷ []
              else [])
unfolding inject_forward_join
inject_forward_join-sent h v peer ttl local_node sender k other d =
    let travels : nat_eq (suc ttl) 0 ≡ false = ground arith in
    let less : suc ttl - 1 ≡ ttl = omega arith in
    rw (beq_of_ne peer.peer_id local_node other, travels, less)
      (forward_to_others-sent h (welcome h v peer) sender k peer ttl d)
