-- ===== src/Config/Sizes.antt =====
-- The sizes of src/network/episub/config.rs against their definition by powers of two.
use irn.Base.{
  ℕ, zero, suc, ◌+◌, ◌-◌, ◌*◌, ◌/◌, ◌^◌, ap, false, nat_eq, nat_eq_iff, ◌≤◌, ◌<◌, ◌≡◌, refl,
  Bool-cases, inl, inr, ltb, ltb→lt, ltb→le, arith,
}
use native.Mathlib.Nat.{pow-suc, mul-pos}
use irn.Config.{Config, log2_loop, log2, max_active_view_size}

log2_loop_bounds :
    (fuel n : ℕ) → 0 < n → n ≤ fuel → (2 ^ log2_loop fuel n ≤ n) × (n < 2 ^ suc (log2_loop fuel n))
unfolding log2_loop
log2_loop_bounds zero n p h = absurd (omega arith)
log2_loop_bounds (suc fuel) n p h = elim (Bool-cases (ltb n 2)) [
  | inl small ↦ rw small (omega (arith, ltb→lt n 2 small))
  | inr large ↦ rw large (
      let (a, b) = log2_loop_bounds fuel (n / 2) (omega (arith, ltb→le n 2 large)) (omega arith) in
      omega (arith, pow-suc 2 (log2_loop fuel (n / 2)), pow-suc 2 (suc (log2_loop fuel (n / 2)))))
]

log2_bounds : (n : ℕ) → 0 < n → (2 ^ log2 n ≤ n) × (n < 2 ^ suc (log2 n))
unfolding log2
log2_bounds n p = log2_loop_bounds n n p (omega arith)

pow-double : (m : ℕ) → 2 ^ (m + m) ≡ 4 ^ m
pow-double zero = refl
pow-double (suc m) =
    let e : suc m + suc m ≡ suc (suc (m + m)) = omega arith in
    rw e (omega (arith, pow-double m, pow-suc 2 (m + m), pow-suc 2 (suc (m + m)), pow-suc 4 m))

half_bounds :
    (l x m : ℕ) → m ≡ l / 2 → (2 ^ l ≤ x) × (x < 2 ^ suc l) → (4 ^ m ≤ x) × (x < 4 ^ suc m)
half_bounds l x m half (low, high) = elim (Bool-cases (nat_eq l (m + m))) [
  | inl even ↦
      let e : l ≡ m + m = (nat_eq_iff l (m + m)).0 even in
      omega (arith, ap (λ k. 2 ^ k) e, pow-suc 2 l, pow-double m, pow-suc 4 m)
  | inr odd ↦
      let e : l ≡ suc (m + m) = ground arith in
      omega (arith, ap (λ k. 2 ^ k) e, pow-suc 2 l, pow-suc 2 (m + m), pow-double m, pow-suc 4 m)
]

-- In a network of n nodes, the limit of the active view exceeds the constant factor by the whole number
-- m that is nearest to the logarithm of n to the base 2: 4 ^ m is at most 2 n ^ 2, and 4 ^ (m + 1) is
-- more.
pub max_active_view_size-nearest :
    (c : Config)
    → 0 < c.network_size
    → let m = max_active_view_size c - c.active_view_factor in
      let square = c.network_size * c.network_size in
      (4 ^ m ≤ 2 * square) × (2 * square < 4 ^ suc m)
unfolding max_active_view_size
max_active_view_size-nearest c p =
    let square = c.network_size * c.network_size in
    let some_ : nat_eq c.network_size 0 ≡ false = ground arith in
    let l = log2 (2 * square) in
    let pos : 0 < 2 * square = omega (arith, mul-pos p p) in
    simp (some_, max_active_view_size)
      (half_bounds l (2 * square) (l / 2 + c.active_view_factor - c.active_view_factor)
        (omega arith) (log2_bounds (2 * square) pos))
