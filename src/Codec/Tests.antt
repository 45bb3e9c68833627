-- ===== src/Codec/Tests.antt =====
-- Two messages through a connection.
use irn.Base.{◌≡◌, refl, [], ◌∷◌, ◌++◌, ok, arith}
use irn.Codec.{EpisubConnection, upgrade_inbound, upgrade_outbound}
use irn.Codec.Frames
use irn.Rpc.{Bytes}
use irn.Samples.Crates.{wire, wire-IsLawful, pruning}

abbrev connection : EpisubConnection
connection = record { max_transmit_size = 65536 }

encode_all-decode_all_example :
    (b : Bytes) × (Frames.encode_all wire (upgrade_outbound connection) (pruning ∷ pruning ∷ []) []
      ≡ ok ([] ++ b))
    × (Frames.decode_all wire (upgrade_inbound connection) 2 (b ++ 9 ∷ [])
        ≡ ok (pruning ∷ pruning ∷ [], 9 ∷ []))
encode_all-decode_all_example =
    Frames.encode_all-decode_all wire wire-IsLawful connection connection (pruning ∷ pruning ∷ [])
      [] (9 ∷ []) refl ((omega arith, refl), ((omega arith, refl), tt))
