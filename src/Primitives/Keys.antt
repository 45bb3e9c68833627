-- ===== src/Primitives/Keys.antt =====
-- src/primitives/keys.rs: public keys and key pairs, in base58 and as bytes. An array of 32 bytes is a
-- sequence; the cryptography is a parameter.
use irn.Base.{
  ℕ, zero, suc, ◌-◌, ◌≤◌, ◌<◌, ◌≡◌, String, Bool, true, false, ◌&&◌, Option, none, some, [], ◌∷◌,
  ◌++◌, ltb, nat_eq, length, drop, if◌then◌else◌, Result, ok, err, map_err, ◌>>=◌,
}
use irn.Rpc.{Bytes, PeerId}
use Prim.Native.String.{len, slice, ◌++◌ as str_append}

-- The crates `bs58`, `ed25519_dalek` and libp2p's identities. `decode_into` fills the front of a
-- buffer; `digest` is the digest of the multihash that a peer's identity is.
pub record Crypto : Type 0 where
  pub encode : Bytes → String
  pub decode_into : String → Bytes → Result String Bytes
  pub secret_from_bytes : Bytes → Result String Bytes
  pub public_of : Bytes → Bytes
  pub digest : PeerId → Bytes

abbrev pub key_size : ℕ
key_size = 32

abbrev pub zeros : ℕ → Bytes
zeros zero = []
zeros (suc n) = 0 ∷ zeros n

-- The documented behaviour. What was encoded is decoded to the front of a buffer that is large enough,
-- and refused if it is not; a secret key is its 32 bytes.
pub record IsLawfulCrypto (c : Crypto) : Type 0 where
  pub decode_fits :
      (b buffer : Bytes)
      → length b ≤ length buffer
      → c.decode_into (c.encode b) buffer ≡ ok (b ++ drop (length b) buffer)
  pub decode_large :
      (b buffer : Bytes)
      → length buffer < length b
      → (e : String) × (c.decode_into (c.encode b) buffer ≡ err e)
  pub secret_bytes : (b : Bytes) → length b ≡ key_size → c.secret_from_bytes b ≡ ok b

pub record Pubkey : Type 0 where
  pub bytes : Bytes

abbrev pub pubkey : Bytes → Pubkey
pubkey bytes = record { bytes = bytes }

-- `Display`, which `From<Pubkey> for String` and `Serialize` agree with.
unfoldable pub to_string : Crypto → Pubkey → String
to_string c key = c.encode key.bytes

unfoldable pub from_str : Crypto → String → Result String Pubkey
from_str c s = c.decode_into s (zeros key_size) >>= (λ bytes. ok (pubkey bytes))

-- `[4..]`, which panics on fewer bytes.
abbrev pub digest_key : Bytes → Option Bytes
digest_key bytes = if ltb (length bytes) 4 then none else some (drop 4 bytes)

-- `From<libp2p::PeerId>`: a slice of another length than 32 panics.
unfoldable pub from_peer_id : Crypto → PeerId → Option Pubkey
from_peer_id c p = elim (digest_key (c.digest p)) [
  | none ↦ none
  | some rest ↦ if nat_eq (length rest) key_size then some (pubkey rest) else none
]

-- The pair of keys of a node.
pub record Keypair : Type 0 where
  pub secret : Bytes
  pub public : Bytes

-- `KeypairError`.
pub data KeypairError : Type 0 where
  base58_parse_error : String → KeypairError
  ed25519_error : String → KeypairError

-- `Keypair::public`.
unfoldable pub identity : Keypair → Pubkey
identity pair = pubkey pair.public

-- `TryFrom<&[u8]>`.
unfoldable pub try_from_bytes : Crypto → Bytes → Result KeypairError Keypair
try_from_bytes c value =
    map_err KeypairError.ed25519_error (c.secret_from_bytes value)
    >>= (λ secret. ok (record { secret = secret; public = c.public_of secret }))

-- `FromStr for Keypair`.
unfoldable pub keypair_from_str : Crypto → String → Result KeypairError Keypair
keypair_from_str c value =
    map_err KeypairError.base58_parse_error (c.decode_into value (zeros key_size))
    >>= (λ bytes. map_err KeypairError.ed25519_error (c.secret_from_bytes bytes))
    >>= (λ secret. ok (record { secret = secret; public = c.public_of secret }))

-- `replace_range(4..=len - 5, "...")` in the `Debug` form of a key pair. The subtraction overflows
-- on fewer than 5 bytes, and the range is refused on fewer than 8.
unfoldable pub mask : String → Option String
mask s =
    if ltb (len s) 8
    then none
    else some (str_append (slice s 0 4) (str_append "..." (slice s (len s - 4) (len s))))

abbrev pub bytes_eq : Bytes → Bytes → Bool
bytes_eq [] [] = true
bytes_eq (a ∷ xs) (b ∷ ys) = nat_eq a b && bytes_eq xs ys
bytes_eq xs ys = false

-- `PartialEq<libp2p::PeerId>`, and the same the other way round.
unfoldable pub eq_peer : Crypto → Pubkey → PeerId → Option Bool
eq_peer c key p = elim (digest_key (c.digest p)) [
  | none ↦ none
  | some rest ↦ some (bytes_eq key.bytes rest)
]
