-- ===== src/Primitives/Encoding.antt =====
-- Keys as text and as peers of the network.
use irn.Base.{
  ℕ, ◌+◌, ◌-◌, ◌≤◌, ◌≡◌, refl, ap, subst, ◌∙◌, ◌↔◌, String, true, none, some, [], ◌∷◌, ◌++◌, arith,
  nat_eq, length, drop, if◌then◌else◌, ok, append-nil, nat_eq_iff,
}
use irn.Rpc.{Bytes, PeerId}
use irn.Primitives.Keys.{
  Crypto, IsLawfulCrypto, Pubkey, key_size, zeros, pubkey, to_string, from_str, from_peer_id,
  try_from_bytes, keypair_from_str, mask, bytes_eq, eq_peer,
}
use Prim.Native.String.{len, slice, ◌++◌ as str_append}
use text.Mathlib.TextPositions.{slice-append_left, slice-append_right, len-append}
use text.Mathlib.TextLemmas.{append_assoc}

length-zeros : (n : ℕ) → length (zeros n) ≡ n
length-zeros ℕ.zero = refl
length-zeros (ℕ.suc n) = omega (arith, length-zeros n)

drop-zeros : (k n : ℕ) → drop k (zeros n) ≡ zeros (n - k)
drop-zeros ℕ.zero n = ap zeros (omega arith)
drop-zeros (ℕ.suc k) ℕ.zero = let none_left : 0 ≡ 0 - ℕ.suc k = omega arith in ap zeros none_left
drop-zeros (ℕ.suc k) (ℕ.suc n) = drop-zeros k n ∙ ap zeros (omega arith)

bytes_eq_iff : (xs ys : Bytes) → (bytes_eq xs ys ≡ true) ↔ (xs ≡ ys)
bytes_eq_iff [] [] = ground arith
bytes_eq_iff [] (y ∷ ys) = ground arith
bytes_eq_iff (x ∷ xs) [] = ground arith
bytes_eq_iff (x ∷ xs) (y ∷ ys) = ground (arith, nat_eq_iff x y, bytes_eq_iff xs ys)

module _ (c : Crypto) where
  -- The text of fewer than 32 bytes is accepted as well: it is read as the key of these bytes with
  -- zeros behind them.
  pub from_str-padded :
      IsLawfulCrypto c
      → (b : Bytes) → length b ≤ key_size
      → from_str c (c.encode b) ≡ ok (pubkey (b ++ zeros (key_size - length b)))
  unfolding from_str
  from_str-padded l b fits =
      let e = l.decode_fits b (zeros key_size) (omega (arith, length-zeros key_size)) in
      rw e (ap (λ r. ok (pubkey (b ++ r))) (drop-zeros (length b) key_size))

  -- A key of 32 bytes is read back from its text.
  pub from_str-to_string :
      IsLawfulCrypto c
      → (key : Pubkey) → length key.bytes ≡ key_size
      → from_str c (to_string c key) ≡ ok key
  unfolding to_string
  from_str-to_string l key full =
      let e = from_str-padded l key.bytes (omega arith) in
      let rest : key_size - length key.bytes ≡ 0 = omega arith in
      e ∙ (rw rest (ap (λ b. ok (pubkey b)) (append-nil key.bytes)))

  length-drop_four : (b : Bytes) → 4 ≤ length b → length (drop 4 b) + 4 ≡ length b
  length-drop_four (w ∷ x ∷ y ∷ z ∷ b) h = omega arith
  length-drop_four (x ∷ y ∷ z ∷ []) h = absurd (omega arith)
  length-drop_four (y ∷ z ∷ []) h = absurd (omega arith)
  length-drop_four (z ∷ []) h = absurd (omega arith)
  length-drop_four [] h = absurd (omega arith)

  -- The conversion of a peer to a key panics unless the digest of its identity has 36 bytes, and drops
  -- the first 4 of them.
  pub from_peer_id_lem :
      (p : PeerId)
      → from_peer_id c p
        ≡ (if nat_eq (length (c.digest p)) 36 then some (pubkey (drop 4 (c.digest p))) else none)
  unfolding from_peer_id
  from_peer_id_lem p = ground (arith, length-drop_four (c.digest p))

  -- The comparison of a key with a peer says whether the key is the one that the peer converts to.
  pub eq_peer-from_peer_id :
      (p : PeerId) (key other : Pubkey)
      → from_peer_id c p ≡ some key
      → (eq_peer c other p ≡ some true) ↔ (other ≡ key)
  unfolding from_peer_id eq_peer
  eq_peer-from_peer_id p key other e =
      ground (arith, bytes_eq_iff other.bytes (drop 4 (c.digest p)))

  -- The two ways to make a pair of keys agree: the text of 32 bytes gives the pair of these bytes.
  pub keypair_from_str-try_from_bytes :
      IsLawfulCrypto c
      → (b : Bytes) → length b ≡ key_size
      → (keypair_from_str c (c.encode b) ≡ try_from_bytes c b)
        × (try_from_bytes c b ≡ ok (record { secret = b; public = c.public_of b }))
  unfolding keypair_from_str try_from_bytes
  keypair_from_str-try_from_bytes l b full =
      let decoded = l.decode_fits b (zeros key_size) (omega (arith, length-zeros key_size)) in
      let rest : drop (length b) (zeros key_size) ≡ [] =
        let used : key_size - length b ≡ 0 = omega arith in
        drop-zeros (length b) key_size ∙ ap zeros used in
      let read : c.decode_into (c.encode b) (zeros key_size) ≡ ok b =
        decoded ∙ ap ok (ap (◌++◌ b) rest ∙ append-nil b) in
      let accepted = l.secret_bytes b full in (rw (read, accepted) refl, rw accepted refl)

-- The printed form of a secret shows its first and its last 4 bytes, whatever stands between them.
pub mask-hides :
    (a secret b : String)
    → len a ≡ 4
    → len b ≡ 4
    → mask (str_append a (str_append secret b)) ≡ some (str_append a (str_append "..." b))
unfolding mask
mask-hides a secret b ha hb =
    let s = str_append a (str_append secret b) in
    let t = str_append a secret in
    let assoc = append_assoc a secret b in
    let total : len s ≡ len t + 4 =
      omega
        (arith, hb, len-append a (str_append secret b), len-append secret b, len-append a secret) in
    let front : slice s 0 4 ≡ a =
      subst (λ n. slice s 0 n ≡ a) ha (slice-append_left a (str_append secret b)) in
    let start : len t ≡ len s - 4 = omega (arith, total) in
    let end_ : len t + len b ≡ len s = omega (arith, total, hb) in
    let back : slice s (len s - 4) (len s) ≡ b =
      subst (λ n. slice s n (len s) ≡ b) start
        (subst (λ n. slice s (len t) n ≡ b) end_
          (subst (λ u. slice u (len t) (len t + len b) ≡ b) assoc (slice-append_right t b))) in
    let long : 8 ≤ len s = omega (arith, total, len-append a secret) in
    ground (arith, front, back, long)
