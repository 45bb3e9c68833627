-- ===== src/Samples/Crates.antt =====
-- Concrete crates that behave as documented, for the tests of the node: a hash is a sum, base58 is base
-- one, and a serialisation is the sequence of the fields.
use irn.Base.{
  true, ℕ, zero, suc, ◌+◌, ◌≡◌, refl, ap, ◌∙◌, String, Option, none, some, List, [], ◌∷◌, ◌++◌,
  Result, ok, err, length, length-append, drop, take, leb, ltb, nat_eq, if◌then◌else◌, arith, ◌==◌,
  Eq-String,
}
use irn.Codec.{IoError, Wire}
use irn.Codec.Frames.{IsLawfulWire}
use irn.JsonRpc.{Formats}
use irn.Network.{Bincode}
use irn.Network.Dispatch.{IsLawfulBincode}
use irn.Network.Gossip.{IsTotal}
use irn.Primitives.{Hasher, IsLawfulHasher, Message, Multihash, new}
use irn.Primitives.Keys.{Crypto, IsLawfulCrypto, key_size}
use irn.Rpc.{Bytes, Rpc, Action}
use irn.Samples.{host}
use Prim.Native.Char.{code}

abbrev total : Bytes → ℕ
total [] = 0
total (b ∷ bs) = b + total bs

abbrev flat : List Bytes → Bytes
flat [] = []
flat (b ∷ bs) = b ++ flat bs

abbrev first : Bytes → Result String Multihash
first [] = err "empty"
first (m ∷ rest) = ok m

abbrev pub hasher : Hasher
hasher = record {
  to_bytes = λ m. m ∷ [];
  from_bytes = first;
  sha3_256 = flat;
  wrap = λ b. some (total b);
}

pub hasher-IsLawful : IsLawfulHasher hasher
hasher-IsLawful = record {
  bytes_round = λ m. refl;
  wrap_fits = λ pieces. (total (flat pieces), refl);
}

abbrev unary : ℕ → String → String
unary zero s = String.◌∷◌ "0" s
unary (suc n) s = String.◌∷◌ "1" (unary n s)

abbrev write_key : Bytes → String
write_key [] = ""
write_key (b ∷ bs) = unary b (write_key bs)

-- The bytes of a text, with ones already counted.
abbrev read_key : ℕ → String → Bytes
read_key n String.[] = []
read_key n (String.◌∷◌ c s) =
    let next = read_key 0 s in
    let more = read_key (suc n) s in if nat_eq (code c) 48 then n ∷ next else more

read_key-unary : (b n : ℕ) (s : String) → read_key n (unary b s) ≡ (n + b) ∷ read_key 0 s
read_key-unary zero n s = ap (λ m. m ∷ read_key 0 s) (omega arith)
read_key-unary (suc b) n s =
    let same : suc n + b ≡ n + suc b = omega arith in
    read_key-unary b (suc n) s ∙ ap (λ m. m ∷ read_key 0 s) same

read_key-write_key : (b : Bytes) → read_key 0 (write_key b) ≡ b
read_key-write_key [] = refl
read_key-write_key (b ∷ bs) =
    let none_yet : 0 + b ≡ b = omega arith in
    read_key-unary b 0 (write_key bs) ∙ (rw none_yet (ap (◌∷◌ b) (read_key-write_key bs)))

abbrev fill : Bytes → Bytes → Result String Bytes
fill b buffer =
    if leb (length b) (length buffer) then ok (b ++ drop (length b) buffer) else err "too small"

abbrev pub crypto : Crypto
crypto = record {
  encode = write_key;
  decode_into = λ s buffer. fill (read_key 0 s) buffer;
  secret_from_bytes = λ b. if nat_eq (length b) key_size then ok b else err "length";
  public_of = λ b. b;
  digest = λ p.
      0 ∷ 36 ∷ 8 ∷ 18 ∷ p ∷ 1 ∷ 2 ∷ 3 ∷ 4 ∷ 5 ∷ 6 ∷ 7 ∷ 8 ∷ 9 ∷ 10 ∷ 11 ∷ 12 ∷ 13 ∷ 14 ∷ 15 ∷ 16
      ∷ 17 ∷ 18 ∷ 19 ∷ 20 ∷ 21 ∷ 22 ∷ 23 ∷ 24 ∷ 25 ∷ 26 ∷ 27 ∷ 28 ∷ 29 ∷ 30 ∷ 31 ∷ [];
}

pub crypto-IsLawful : IsLawfulCrypto crypto
crypto-IsLawful = record {
  decode_fits = λ b buffer fits. rw (read_key-write_key b) (ground arith);
  decode_large = λ b buffer large. ("too small", rw (read_key-write_key b) (ground arith));
  secret_bytes = λ b full. ground arith;
}

abbrev read_message : Bytes → Result String Message
read_message [] = err "empty"
read_message (t ∷ content) = ok (new t content)

abbrev pub bincode : Bincode
bincode = record {
  serialize_message = λ m. some (m.topic ∷ m.content);
  deserialize_message = read_message;
  serialize_hash = λ m. some (m ∷ []);
  deserialize_hash = first;
}

pub bincode-IsLawful : IsLawfulBincode bincode
unfolding new
bincode-IsLawful = record {
  message_round = λ m. (m.topic ∷ m.content, refl, refl);
  hash_round = λ m. (m ∷ [], refl, refl);
}

pub bincode-IsTotal : IsTotal host bincode
bincode-IsTotal = record {
  encodes = λ b level. (b, refl);
  writes_message = λ m. (m.topic ∷ m.content, refl);
  writes_hash = λ m. (m ∷ [], refl);
}

-- The values of two requests: 0 publishes, 1 subscribes, and 2 is their parameters.
abbrev field : ℕ → String → Option ℕ
field v name =
    if name == "method"
    then some (v + 10)
    else if name == "params"
    then some 2
    else if name == "topic"
    then some 20
    else if name == "message"
    then some 21
    else none

abbrev text_of : ℕ → Option String
text_of v =
    if nat_eq v 10
    then some "irn_publish"
    else if nat_eq v 11
    then some "irn_subscribe"
    else if nat_eq v 20
    then some "topic"
    else if nat_eq v 21
    then some "hello"
    else none

abbrev read_json : String → Result String ℕ
read_json s = if s == "publish" then ok 0 else if s == "subscribe" then ok 1 else err "no JSON"

abbrev pub formats : Formats ℕ
formats = record {
  from_str = read_json;
  get = field;
  as_str = text_of;
  into_vec = λ s. ok (7 ∷ []);
  as_bytes = λ s. 104 ∷ 105 ∷ [];
}

-- A frame is the length and the bytes; one message has an encoding.
abbrev pub pruning : Rpc
pruning = record { topic = "t"; action = some Action.prune }

abbrev too_long : IoError
too_long = record { permission_denied = true; reason = "too long" }

abbrev read_packet : ℕ → Bytes → Result IoError (Option Bytes × Bytes)
read_packet max [] = ok (none, [])
read_packet max (n ∷ rest) =
    if ltb max n
    then err too_long
    else if ltb (length rest) n
    then ok (none, n ∷ rest)
    else ok (some (take n rest), drop n rest)

abbrev pub wire : Wire
wire = record {
  write_frame = λ max b dst. if ltb max (length b) then err too_long else ok (dst ++ length b ∷ b);
  read_frame = read_packet;
  encode_rpc = λ r. 1 ∷ 2 ∷ [];
  decode_rpc = λ b. ok pruning;
}

take-append : (b rest : Bytes) → take (length b) (b ++ rest) ≡ b
take-append [] rest = refl
take-append (x ∷ b) rest = ap (◌∷◌ x) (take-append b rest)

drop-append : (b rest : Bytes) → drop (length b) (b ++ rest) ≡ rest
drop-append [] rest = refl
drop-append (x ∷ b) rest = drop-append b rest

pub wire-IsLawful : IsLawfulWire wire
wire-IsLawful = record {
  frame = λ max b fits. (
    length b ∷ b,
    (λ dst. ground arith),
    λ rest. ground (arith, length-append b rest, take-append b rest, drop-append b rest),
  );
  too_long = λ max b dst long. (too_long, ground arith);
}
