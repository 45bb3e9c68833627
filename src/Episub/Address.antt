-- ===== src/Episub/Address.antt =====
-- src/network/episub/behaviour.rs: the comparison of addresses, and which of them are local.
use irn.Base.{◌≡◌, Bool, true, false, ◌&&◌, ◌||◌, [], ◌∷◌, Eq, nat_eq, ◌↔◌, nat_eq_iff, arith}
use irn.Rpc.{Protocol, Multiaddr}

abbrev pub protocol_eq : Protocol → Protocol → Bool
protocol_eq (Protocol.ip4 a) (Protocol.ip4 b) = nat_eq a b
protocol_eq (Protocol.ip6 a) (Protocol.ip6 b) = nat_eq a b
protocol_eq (Protocol.tcp a) (Protocol.tcp b) = nat_eq a b
protocol_eq (Protocol.other a) (Protocol.other b) = nat_eq a b
protocol_eq a b = false

abbrev pub multiaddr_eq : Multiaddr → Multiaddr → Bool
multiaddr_eq [] [] = true
multiaddr_eq (a ∷ xs) (b ∷ ys) = protocol_eq a b && multiaddr_eq xs ys
multiaddr_eq a b = false

protocol_eq_iff : (a b : Protocol) → (protocol_eq a b ≡ true) ↔ (a ≡ b)
protocol_eq_iff (Protocol.ip4 a) (Protocol.ip4 b) = ground (arith, nat_eq_iff a b)
protocol_eq_iff (Protocol.ip4 a) (Protocol.ip6 b) = ground arith
protocol_eq_iff (Protocol.ip4 a) (Protocol.tcp b) = ground arith
protocol_eq_iff (Protocol.ip4 a) (Protocol.other b) = ground arith
protocol_eq_iff (Protocol.ip6 a) (Protocol.ip4 b) = ground arith
protocol_eq_iff (Protocol.ip6 a) (Protocol.ip6 b) = ground (arith, nat_eq_iff a b)
protocol_eq_iff (Protocol.ip6 a) (Protocol.tcp b) = ground arith
protocol_eq_iff (Protocol.ip6 a) (Protocol.other b) = ground arith
protocol_eq_iff (Protocol.tcp a) (Protocol.ip4 b) = ground arith
protocol_eq_iff (Protocol.tcp a) (Protocol.ip6 b) = ground arith
protocol_eq_iff (Protocol.tcp a) (Protocol.tcp b) = ground (arith, nat_eq_iff a b)
protocol_eq_iff (Protocol.tcp a) (Protocol.other b) = ground arith
protocol_eq_iff (Protocol.other a) (Protocol.ip4 b) = ground arith
protocol_eq_iff (Protocol.other a) (Protocol.ip6 b) = ground arith
protocol_eq_iff (Protocol.other a) (Protocol.tcp b) = ground arith
protocol_eq_iff (Protocol.other a) (Protocol.other b) = ground (arith, nat_eq_iff a b)

pub multiaddr_eq_iff : (a b : Multiaddr) → (multiaddr_eq a b ≡ true) ↔ (a ≡ b)
multiaddr_eq_iff [] [] = ground arith
multiaddr_eq_iff [] (b ∷ ys) = ground arith
multiaddr_eq_iff (a ∷ xs) [] = ground arith
multiaddr_eq_iff (a ∷ xs) (b ∷ ys) = ground (arith, protocol_eq_iff a b, multiaddr_eq_iff xs ys)

instance abbrev pub Eq-Multiaddr : Eq Multiaddr
Eq-Multiaddr = record { beq = multiaddr_eq; beq_iff = multiaddr_eq_iff }

-- 127.0.0.1 and 0.0.0.0, ::1 and ::
unfoldable pub is_local : Protocol → Bool
is_local (Protocol.ip4 a) = nat_eq a 0x7f000001 || nat_eq a 0
is_local (Protocol.ip6 a) = nat_eq a 1 || nat_eq a 0
is_local (Protocol.tcp a) = false
is_local (Protocol.other a) = false

unfoldable pub is_local_address : Multiaddr → Bool
is_local_address [] = false
is_local_address (p ∷ rest) = is_local p || is_local_address rest
