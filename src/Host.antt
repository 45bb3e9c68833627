-- ===== src/Host.antt =====
-- The code outside this repository that the network modules call: the random choices of `rand`, the
-- conversions of libp2p's `PeerId` and `Multiaddr`, the zstd codec, and the binary search of the
-- standard library, which may return any of several matches. Definitions take a `Host`; theorems
-- that rely on documented behaviour take `IsLawful` as well.
use irn.Base.{ℕ, ◌≤◌, ◌<◌, ◌≡◌, Option, none, some, List, [], ◌∷◌, length, get_elem?, All}
use irn.Rpc.{PeerId, Bytes, Multiaddr, AddressablePeer}

-- The thread's random generator is read at successive draws, which a state counts.
pub record Host : Type 0 where
  pub choose : ℕ → List AddressablePeer → Option AddressablePeer
  pub choose_multiple : ℕ → List AddressablePeer → ℕ → List AddressablePeer
  pub sample : ℕ → ℕ
  pub gen_id : ℕ → ℕ
  pub peer_id_from_bytes : Bytes → Option PeerId
  pub peer_id_to_bytes : PeerId → Bytes
  pub multiaddr_try_from : Bytes → Option Multiaddr
  pub multiaddr_to_vec : Multiaddr → Bytes
  pub encode_all : Bytes → ℕ → Option Bytes
  pub decode_all : Bytes → Option Bytes
  pub binary_search : List ℕ → ℕ → ℕ

-- A float in [0, 1) is a number of units of 2 ^ -24.
abbrev pub sample_unit : ℕ
sample_unit = 0x1000000

abbrev pub IsSorted : List ℕ → Type 0
IsSorted [] = Unit
IsSorted (x ∷ xs) = All (λ y. x ≤ y) xs × IsSorted xs

-- The documented behaviour: `choose` returns an element, and nothing only of an empty iterator; a
-- sample of k elements has at most k; a position in a sorted sequence has nothing larger before it
-- and nothing smaller behind it.
pub record IsLawful (h : Host) : Type 0 where
  pub choose_nil : (n : ℕ) → h.choose n [] ≡ none
  pub choose_cons :
      (n : ℕ) (x : AddressablePeer) (xs : List AddressablePeer)
      → (i : ℕ) × (y : AddressablePeer) × (h.choose n (x ∷ xs) ≡ some y)
        × (get_elem? (x ∷ xs) i ≡ some y)
  pub choose_multiple_length :
      (n : ℕ) (xs : List AddressablePeer) (k : ℕ) → length (h.choose_multiple n xs k) ≤ k
  pub sample_lt : (n : ℕ) → h.sample n < sample_unit
  pub peer_id_round : (p : PeerId) → h.peer_id_from_bytes (h.peer_id_to_bytes p) ≡ some p
  pub multiaddr_round : (a : Multiaddr) → h.multiaddr_try_from (h.multiaddr_to_vec a) ≡ some a
  pub search_le : (xs : List ℕ) (t : ℕ) → h.binary_search xs t ≤ length xs
  pub search_before :
      (xs : List ℕ) (t i : ℕ) {x : ℕ}
      → IsSorted xs
      → get_elem? xs i ≡ some x
      → i < h.binary_search xs t
      → x ≤ t
  pub search_behind :
      (xs : List ℕ) (t i : ℕ) {x : ℕ}
      → IsSorted xs
      → get_elem? xs i ≡ some x
      → h.binary_search xs t ≤ i
      → t ≤ x
