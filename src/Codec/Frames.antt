-- ===== src/Codec/Frames.antt =====
-- A stream of messages through the codecs of both ends of a connection.
use irn.Base.{
  ℕ, zero, suc, ◌≤◌, ◌<◌, ◌≡◌, refl, ap, subst, ◌∙◌, Option, none, some, List, [], ◌∷◌, ◌++◌, All,
  length, Result, ok, err, ◌>>=◌, append_assoc, append-nil,
}
use irn.Codec.{
  IoError, Wire, EpisubCodec, EpisubConnection, EpisubHandlerError, encode, decode, upgrade_inbound,
  upgrade_outbound, message_of,
}
use irn.Rpc.{Bytes, Rpc}

-- The documented behaviour: a packet within the limit has a frame, which is put behind the buffer and
-- read back from the front of one; a larger packet is refused.
pub record IsLawfulWire (w : Wire) : Type 0 where
  pub frame :
      (max : ℕ) (b : Bytes)
      → length b ≤ max
      → (f : Bytes) × ((dst : Bytes) → w.write_frame max b dst ≡ ok (dst ++ f))
        × ((rest : Bytes) → w.read_frame max (f ++ rest) ≡ ok (some b, rest))
  pub too_long :
      (max : ℕ) (b dst : Bytes) → max < length b → (e : IoError) × (w.write_frame max b dst ≡ err e)

-- A message that is within the limit, and that protobuf decodes from its encoding.
abbrev pub Fits : Wire → ℕ → Rpc → Type 0
Fits w max r = (length (w.encode_rpc r) ≤ max) × (w.decode_rpc (w.encode_rpc r) ≡ ok r)

-- Messages encoded one after the other into a buffer.
abbrev pub encode_all : Wire → EpisubCodec → List Rpc → Bytes → Result EpisubHandlerError Bytes
encode_all w c [] dst = ok dst
encode_all w c (r ∷ rest) dst = encode w c r dst >>= (λ b. encode_all w c rest b)

-- The messages of n calls of the decoder, and what is left of the buffer.
abbrev pub cons_message :
    Option Rpc
    → Result EpisubHandlerError (List Rpc × Bytes)
    → Result EpisubHandlerError (List Rpc × Bytes)
cons_message none r = r
cons_message (some item) (ok (items, rest)) = ok (item ∷ items, rest)
cons_message (some item) (err e) = err e

abbrev pub decode_all :
    Wire → EpisubCodec → ℕ → Bytes → Result EpisubHandlerError (List Rpc × Bytes)
decode_all w c zero src = ok ([], src)
decode_all w c (suc n) src = decode w c src >>= (λ r. cons_message r.0 (decode_all w c n r.1))

module _ (w : Wire) (l : IsLawfulWire w) where
  encoded :
      (c : EpisubConnection) (r : Rpc) (f dst : Bytes)
      → w.write_frame c.max_transmit_size (w.encode_rpc r) dst ≡ ok (dst ++ f)
      → encode w (upgrade_outbound c) r dst ≡ ok (dst ++ f)
  unfolding encode upgrade_outbound
  encoded c r f dst e = rw e refl

  decoded :
      (c : EpisubConnection) (r : Rpc) (src rest : Bytes)
      → w.read_frame c.max_transmit_size src ≡ ok (some (w.encode_rpc r), rest)
      → w.decode_rpc (w.encode_rpc r) ≡ ok r
      → decode w (upgrade_inbound c) src ≡ ok (some r, rest)
  unfolding decode upgrade_inbound
  decoded c r src rest e back = rw (e, decode) (rw (back, message_of) refl)

  framed :
      (sender receiver : EpisubConnection) (items : List Rpc)
      → sender.max_transmit_size ≡ receiver.max_transmit_size
      → All (Fits w sender.max_transmit_size) items
      → (b : Bytes) × ((dst : Bytes)
          → encode_all w (upgrade_outbound sender) items dst ≡ ok (dst ++ b))
        × ((rest : Bytes)
            → decode_all w (upgrade_inbound receiver) (length items) (b ++ rest) ≡ ok (items, rest))
  framed sender receiver [] same fit = ([], (λ dst. rw (append-nil dst) refl), λ rest. refl)
  framed sender receiver (r ∷ items) same fit =
      let (f, written, back) = l.frame sender.max_transmit_size (w.encode_rpc r) fit.0.0 in
      let (b, all_written, all_read) = framed sender receiver items same fit.1 in
      (
        f ++ b,
        (λ dst.
            rw (encoded sender r f dst (written dst))
              (all_written (dst ++ f) ∙ ap ok (append_assoc dst f b))),
        λ rest.
            let here =
              subst (λ n. w.read_frame n (f ++ (b ++ rest)) ≡ ok (some (w.encode_rpc r), b ++ rest))
                same (back (b ++ rest)) in
            rw (append_assoc f b rest) (
              rw (decoded receiver r (f ++ (b ++ rest)) (b ++ rest) here fit.0.1)
                (rw (all_read rest) refl)),
      )

  -- Messages that are within the limit of a connection, that protobuf decodes from their encodings, and
  -- that one end encodes into a buffer one after the other, are what the other end decodes from it, in
  -- the same order, whatever follows in the buffer.
  pub encode_all-decode_all :
      (sender receiver : EpisubConnection) (items : List Rpc) (dst rest : Bytes)
      → sender.max_transmit_size ≡ receiver.max_transmit_size
      → All (Fits w sender.max_transmit_size) items
      → (b : Bytes) × (encode_all w (upgrade_outbound sender) items dst ≡ ok (dst ++ b))
        × (decode_all w (upgrade_inbound receiver) (length items) (b ++ rest) ≡ ok (items, rest))
  encode_all-decode_all sender receiver items dst rest same fit =
      let (b, written, back) = framed sender receiver items same fit in (b, written dst, back rest)

-- A message that is too long for the connection is refused by the encoder as such.
pub encode-oversized :
    (w : Wire) (c : EpisubConnection) (item : Rpc) (dst : Bytes)
    → IsLawfulWire w
    → c.max_transmit_size < length (w.encode_rpc item)
    → encode w (upgrade_outbound c) item dst ≡ err EpisubHandlerError.max_transmission_size
unfolding encode upgrade_outbound
encode-oversized w c item dst l long =
    let (e, refused) = l.too_long c.max_transmit_size (w.encode_rpc item) dst long in
    rw refused refl
