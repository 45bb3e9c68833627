-- ===== src/Samples.antt =====
-- A concrete host that behaves as documented, for the tests: it chooses the first candidate, writes
-- an identity as one byte, does not compress, and searches from the front.
pub mod Crates
use irn.Base.{
  ℕ, zero, suc, ◌+◌, ◌≤◌, ◌<◌, ◌≡◌, refl, Option, none, some, List, [], ◌∷◌, length, take,
  get_elem?, All-get_elem?, ltb, if◌then◌else◌, arith,
}
use irn.Config.{Config, default_config}
use irn.Host.{Host, IsLawful, IsSorted}
use irn.Rpc.{PeerId, Bytes, Multiaddr, Protocol, AddressablePeer}

abbrev pub first : List AddressablePeer → Option AddressablePeer
first [] = none
first (x ∷ xs) = some x

abbrev pub read_id : Bytes → Option PeerId
read_id [] = none
read_id (p ∷ rest) = some p

abbrev pub write_addr : Multiaddr → Bytes
write_addr [] = []
write_addr (Protocol.ip4 n ∷ rest) = 0 ∷ n ∷ write_addr rest
write_addr (Protocol.ip6 n ∷ rest) = 1 ∷ n ∷ write_addr rest
write_addr (Protocol.tcp n ∷ rest) = 2 ∷ n ∷ write_addr rest
write_addr (Protocol.other n ∷ rest) = 3 ∷ n ∷ write_addr rest

abbrev pub protocol : ℕ → ℕ → Protocol
protocol zero n = Protocol.ip4 n
protocol (suc zero) n = Protocol.ip6 n
protocol (suc (suc zero)) n = Protocol.tcp n
protocol (suc (suc (suc t))) n = Protocol.other n

abbrev pub read_addr : Bytes → Option Multiaddr
read_addr [] = some []
read_addr (t ∷ []) = none
read_addr (t ∷ n ∷ rest) = elim (read_addr rest) [ none ↦ none | some a ↦ some (protocol t n ∷ a) ]

abbrev pub unzip : Bytes → Option Bytes
unzip [] = none
unzip (b ∷ rest) = some (b ∷ rest)

abbrev pub position : List ℕ → ℕ → ℕ
position [] t = 0
position (x ∷ xs) t = let rest = suc (position xs t) in if ltb x t then rest else 0

abbrev pub host : Host
host = record {
  choose = λ n xs. first xs;
  choose_multiple = λ n xs k. take k xs;
  sample = λ n. 0;
  gen_id = λ n. n + 100;
  peer_id_from_bytes = read_id;
  peer_id_to_bytes = λ p. p ∷ [];
  multiaddr_try_from = read_addr;
  multiaddr_to_vec = write_addr;
  encode_all = λ b level. some b;
  decode_all = unzip;
  binary_search = position;
}

addr_round : (a : Multiaddr) → read_addr (write_addr a) ≡ some a
addr_round [] = refl
addr_round (Protocol.ip4 n ∷ rest) = rw (addr_round rest)
addr_round (Protocol.ip6 n ∷ rest) = rw (addr_round rest)
addr_round (Protocol.tcp n ∷ rest) = rw (addr_round rest)
addr_round (Protocol.other n ∷ rest) = rw (addr_round rest)

length-take : (k : ℕ) (xs : List AddressablePeer) → length (take k xs) ≤ k
length-take zero xs = omega arith
length-take (suc k) [] = omega arith
length-take (suc k) (x ∷ xs) = omega (arith, length-take k xs)

position_le : (xs : List ℕ) (t : ℕ) → position xs t ≤ length xs
position_le [] t = omega arith
position_le (x ∷ xs) t = ground (arith, position_le xs t)

position_before :
    (xs : List ℕ) (t i : ℕ) {x : ℕ}
    → IsSorted xs
    → get_elem? xs i ≡ some x
    → i < position xs t
    → x ≤ t
position_before [] t i s e h = absurd (omega arith)
position_before (y ∷ xs) t zero s e h = ground arith
position_before (y ∷ xs) t (suc i) {x} s e h = ground (arith, position_before xs t i {x = x} s.1 e)

position_behind :
    (xs : List ℕ) (t i : ℕ) {x : ℕ}
    → IsSorted xs
    → get_elem? xs i ≡ some x
    → position xs t ≤ i
    → t ≤ x
position_behind [] t i s e h = cc
position_behind (y ∷ xs) t zero s e h = ground arith
position_behind (y ∷ xs) t (suc i) {x} s e h =
    ground
      (arith, position_behind xs t i {x = x} s.1 e, All-get_elem? (λ z. y ≤ z) xs i {x = x} s.0 e)

pub host-IsLawful : IsLawful host
host-IsLawful = record {
  choose_nil = λ n. refl;
  choose_cons = λ n x xs. (0, x, refl, refl);
  choose_multiple_length = λ n xs k. length-take k xs;
  sample_lt = λ n. omega arith;
  peer_id_round = λ p. refl;
  multiaddr_round = addr_round;
  search_le = position_le;
  search_before = position_before;
  search_behind = position_behind;
}

abbrev pub config : Config
config = record default_config { network_size = 2; active_view_factor = 1; passive_view_factor = 1 }

abbrev pub peer : ℕ → AddressablePeer
peer n = record { peer_id = n; addresses = (Protocol.ip4 n ∷ Protocol.tcp 44668 ∷ []) ∷ [] }
