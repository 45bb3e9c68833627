-- ===== src/Primitives.antt =====
-- src/primitives/message.rs, subscription.rs and mod.rs: messages, subscriptions, and the hash that
-- identifies a message.
pub mod Keys
pub mod Encoding
pub mod Hashing
mod Tests
use irn.Base.{ℕ, ◌≡◌, String, Bool, Option, none, some, List, [], ◌∷◌, Result}
use irn.Rpc.{Bytes}

-- The program compares multihashes and never looks inside.
abbrev pub Multihash : Type 0
Multihash = ℕ

-- A subscription on a topic by an endpoint.
abbrev pub Subscription : Type 0
Subscription = Multihash

-- The crates `multihash` and `sha3`. The digest is that of the pieces handed to one hasher, in order;
-- `wrap` fails on a digest that is too long.
pub record Hasher : Type 0 where
  pub to_bytes : Multihash → Bytes
  pub from_bytes : Bytes → Result String Multihash
  pub sha3_256 : List Bytes → Bytes
  pub wrap : Bytes → Option Multihash

-- The documented behaviour: a multihash is read back from its bytes, and a digest of this size fits.
pub record IsLawfulHasher (h : Hasher) : Type 0 where
  pub bytes_round : (m : Multihash) → h.from_bytes (h.to_bytes m) ≡ Result.ok m
  pub wrap_fits : (pieces : List Bytes) → (m : Multihash) × (h.wrap (h.sha3_256 pieces) ≡ some m)

-- A message between two end-parties. The cache is filled by the first call of `multihash`, and left
-- out when the message is serialised.
pub record Message : Type 0 where
  pub topic : Multihash
  pub content : Bytes
  pub hashcache : Option Multihash

unfoldable pub new : Multihash → Bytes → Message
new topic content = record { topic = topic; content = content; hashcache = none }

-- `get_or_init`: the hash, and the message with its cache filled. Without a result it panics.
unfoldable pub multihash : Hasher → Message → Option (Multihash × Message)
multihash h m = elim m.hashcache [
  | some hash ↦ some (hash, m)
  | none ↦ elim (h.wrap (h.sha3_256 (h.to_bytes m.topic ∷ m.content ∷ []))) [
    | none ↦ none
    | some hash ↦ some (hash, record m { hashcache = some hash })
  ]
]
