-- ===== src/Primitives/Tests.antt =====
-- Messages and keys on small inputs, and their theorems at concrete keys.
use irn.Base.{◌≡◌, refl, some, [], ◌∷◌, ok}
use irn.Primitives.{Message, new, multihash}
use irn.Primitives.Encoding
use irn.Primitives.Keys.{Pubkey, pubkey, zeros, to_string, from_str, eq_peer, from_peer_id, mask}
use irn.Samples.Crates.{crypto}

program : Unit {0}
unfolding new multihash from_str to_string eq_peer from_peer_id mask
program = tt

abbrev greeting : Message
greeting = new 5 (1 ∷ 2 ∷ [])

abbrev key : Pubkey
key = pubkey (3 ∷ 1 ∷ zeros 30)

-- A text of two bytes is a key as well.
short : from_str crypto (crypto.encode (3 ∷ 1 ∷ [])) ≡ ok key
unfolding program
short = refl

mask-hides_example : mask "abcdsecretwxyz" ≡ some "abcd...wxyz"
unfolding program
mask-hides_example = Encoding.mask-hides "abcd" "secret" "wxyz" refl refl
