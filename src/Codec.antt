-- ===== src/Codec.antt =====
-- src/network/episub/codec.rs and connection.rs, with the error of error.rs: the frames of a connection. A
-- frame is a protobuf message behind its length; the lengths are the crate `unsigned_varint`, the
-- messages the crate `prost`.
pub mod Frames
mod Tests
use irn.Base.{ℕ, String, Bool, Option, none, some, Result, ok, err, ◌>>=◌, if◌then◌else◌}
use irn.Rpc.{Bytes, Rpc}

-- An `std::io::Error`: whether its kind is `PermissionDenied`, and its text.
pub record IoError : Type 0 where
  pub permission_denied : Bool
  pub reason : String

-- `write_frame max b buffer` is the buffer with the frame of b behind it, and `read_frame max buffer`
-- the first packet of the buffer with the rest, or no packet while it is incomplete.
pub record Wire : Type 0 where
  pub write_frame : ℕ → Bytes → Bytes → Result IoError Bytes
  pub read_frame : ℕ → Bytes → Result IoError (Option Bytes × Bytes)
  pub encode_rpc : Rpc → Bytes
  pub decode_rpc : Bytes → Result IoError Rpc

pub data EpisubHandlerError : Type 0 where
  max_transmission_size : EpisubHandlerError
  io : IoError → EpisubHandlerError

-- The codec: the limit of its length codec.
pub record EpisubCodec : Type 0 where
  pub max_len : ℕ

pub record EpisubConnection : Type 0 where
  pub max_transmit_size : ℕ

abbrev pub protocol_info : String
protocol_info = "/episub/1.0.0"

-- The codec of `upgrade_inbound`, and of `upgrade_outbound`.
unfoldable pub upgrade_inbound : EpisubConnection → EpisubCodec
upgrade_inbound c = record { max_len = c.max_transmit_size }

unfoldable pub upgrade_outbound : EpisubConnection → EpisubCodec
upgrade_outbound c = record { max_len = c.max_transmit_size }

abbrev pub oversized : Result IoError Bytes → Result EpisubHandlerError Bytes
oversized (ok b) = ok b
oversized (err e) = err EpisubHandlerError.max_transmission_size

-- The buffer with the frame of the message.
unfoldable pub encode : Wire → EpisubCodec → Rpc → Bytes → Result EpisubHandlerError Bytes
encode w c item dst = oversized (w.write_frame c.max_len (w.encode_rpc item) dst)

abbrev pub handler_error : IoError → EpisubHandlerError
handler_error e =
    if e.permission_denied
    then EpisubHandlerError.max_transmission_size
    else EpisubHandlerError.io e

abbrev pub message_of : Wire → Option Bytes × Bytes → Result EpisubHandlerError (Option Rpc × Bytes)
message_of w (none, rest) = ok (none, rest)
message_of w (some packet, rest) = elim (w.decode_rpc packet) [
  | ok item ↦ ok (some item, rest)
  | err e ↦ err (EpisubHandlerError.io e)
]

-- The first message of the buffer, with the rest of it.
unfoldable pub decode : Wire → EpisubCodec → Bytes → Result EpisubHandlerError (Option Rpc × Bytes)
decode w c src = elim (w.read_frame c.max_len src) [
  | err e ↦ err (handler_error e)
  | ok packet ↦ message_of w packet
]
