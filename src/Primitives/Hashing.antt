-- ===== src/Primitives/Hashing.antt =====
-- The identity of a message depends on its topic and content only.
use irn.Base.{◌≡◌, refl, Option, none, some, [], ◌∷◌, arith}
use irn.Rpc.{Bytes}
use irn.Primitives.{Multihash, Hasher, Message, multihash, IsLawfulHasher}

-- The hash that a message of this topic and content has.
abbrev pub hash_of : Hasher → Multihash → Bytes → Option Multihash
hash_of h topic content = h.wrap (h.sha3_256 (h.to_bytes topic ∷ content ∷ []))

-- What is in the cache is the hash.
abbrev pub Cached : Hasher → Multihash → Bytes → Option Multihash → Type 0
Cached h topic content none = Unit
Cached h topic content (some hash) = hash_of h topic content ≡ some hash

abbrev pub IsCached : Hasher → Message → Type 0
IsCached h m = Cached h m.topic m.content m.hashcache

module _ (h : Hasher) where
  cached :
      (topic : Multihash) (content : Bytes) (cache : Option Multihash) {hash : Multihash}
      → hash_of h topic content ≡ some hash
      → Cached h topic content cache
      → multihash h (record { topic = topic; content = content; hashcache = cache })
        ≡ some (hash, record { topic = topic; content = content; hashcache = some hash })
  unfolding multihash
  cached topic content none e c = ground arith
  cached topic content (some held) {hash} e c =
      let same : held ≡ hash = ground arith in rw same refl

  -- If the cache of a message is empty or holds its hash, then a hash is produced, and it is the hash
  -- of the topic and the content; the message then holds it, and is otherwise the same.
  pub multihash_lem :
      IsLawfulHasher h
      → (m : Message) → IsCached h m
      → (hash : Multihash) × (hash_of h m.topic m.content ≡ some hash)
        × (multihash h m ≡ some (hash, record m { hashcache = some hash }))
  multihash_lem l m c =
      let (hash, e) = l.wrap_fits (h.to_bytes m.topic ∷ m.content ∷ []) in
      (hash, e, cached m.topic m.content m.hashcache e c)
