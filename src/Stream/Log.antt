-- ===== src/Stream/Log.antt =====
-- The whole part of `std::log2` of a positive number.
use libki.Common.{ℕ, zero, suc, ◌*◌, ◌/◌, ◌^◌, ◌≤◌, ◌<◌, arith, ltb, if◌then◌else◌}
use native.Mathlib.Nat.{pow-suc, pow-le-pow_right}
use native.Mathlib.Decide.{dec_lt}

-- How often a number can be halved before it is 1, with fuel.
halvings : ℕ → ℕ → ℕ
halvings zero n = 0
halvings (suc fuel) n = let more = suc (halvings fuel (n / 2)) in if ltb n 2 then 0 else more

unfoldable pub log2 : ℕ → ℕ
unfolding halvings
log2 n = halvings n n

halvings_bounds :
    (fuel n : ℕ) → n ≤ fuel → 0 < n → (2 ^ halvings fuel n ≤ n) × (n < 2 * 2 ^ halvings fuel n)
unfolding halvings
halvings_bounds zero n h k = absurd (omega arith)
halvings_bounds (suc fuel) n h k =
    ground (arith, halvings_bounds fuel (n / 2) (omega arith), pow-suc 2 (halvings fuel (n / 2)))

-- The number lies between two powers of two.
pub log2_bounds : (n : ℕ) → 0 < n → (2 ^ log2 n ≤ n) × (n < 2 * 2 ^ log2 n)
unfolding log2
log2_bounds n h = halvings_bounds n n (omega arith) h

-- A number below a power of two has a smaller logarithm.
pub log2-lt : (k n : ℕ) → 0 < n → n < 2 ^ k → log2 n < k
log2-lt k n h lt = elim (dec_lt (log2 n) k) [
  | yes less ↦ less
  | no more ↦ absurd (
      omega (
        arith,
        log2_bounds n h,
        pow-le-pow_right {n = 2} (omega arith) {i = k} {j = log2 n} (omega arith),
      ))
]
