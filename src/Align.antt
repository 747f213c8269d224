-- ===== src/Align.antt =====
-- quorin/schema.py and quorin/layout.py: `_align_up` and `_next_pow2`.
use native.Mathlib.Nat.{
  pow-suc, mod-add-div, mod-lt, div-lt_iff_lt-mul, mul-le-mul_left, mul-mod_right,
}
use native.Mathlib.Numerals.{add-one}
use native.Mathlib.Decide.{dec_lt}
use quorin.Base.{
  ℕ, zero, suc, ◌+◌, ◌-◌, ◌*◌, ◌/◌, ◌%◌, ◌^◌, ◌≤◌, ◌<◌, ◌≡◌, refl, arith, leb, Bool-cases, inl, inr,
  clear_bits, bit_and_mask, pow_pos, if◌then◌else◌,
}

-- `(value + alignment - 1) & ~(alignment - 1)`
unfoldable pub align_up : ℕ → ℕ → ℕ
align_up value alignment = clear_bits (value + alignment - 1) (alignment - 1)

-- `int.bit_length`
bit_length_fuel : ℕ → ℕ → ℕ
bit_length_fuel zero n = 0
bit_length_fuel (suc f) zero = 0
bit_length_fuel (suc f) (suc n) = bit_length_fuel f (suc n / 2) + 1

unfoldable pub bit_length : ℕ → ℕ
unfolding bit_length_fuel
bit_length n = bit_length_fuel n n

unfoldable pub next_pow2 : ℕ → ℕ
unfolding bit_length
next_pow2 n = if leb n 1 then 1 else 2 ^ bit_length (n - 1)

-- Rounding up by a power of two, as arithmetic.
align_up_pow : (v k : ℕ) → align_up v (2 ^ k) ≡ (v + 2 ^ k - 1) - (v + 2 ^ k - 1) % 2 ^ k
unfolding align_up
align_up_pow v k = rw (bit_and_mask (v + 2 ^ k - 1) k)

pub align_up_64 : (v : ℕ) → align_up v 64 ≡ (v + 63) / 64 * 64
align_up_64 v = omega (arith, align_up_pow v 6)

pub align_up_4096 : (v : ℕ) → align_up v 4096 ≡ (v + 4095) / 4096 * 4096
align_up_4096 v = omega (arith, align_up_pow v 12)

sub_mod_whole : (x m : ℕ) → (x - x % m) % m ≡ 0
sub_mod_whole x m =
    let e : x - x % m ≡ m * (x / m) = omega (arith, mod-add-div x m) in rw (e, mul-mod_right)

round_least : (m v w : ℕ) → 0 < m → w % m ≡ 0 → v ≤ w → (v + m - 1) - (v + m - 1) % m ≤ w
round_least m v w pos whole h =
    let x = v + m - 1 in
    let fits : x < (w / m + 1) * m = omega (arith, mod-add-div w m) in
    let below : x / m < w / m + 1 = (div-lt_iff_lt-mul pos).1 fits in
    let q_le : x / m ≤ w / m = omega arith in
    omega (arith, mod-add-div w m, mod-add-div x m, mul-le-mul_left m q_le)

-- `align_up` is the least multiple of the alignment that is not below the value.
pub align_up_least :
    (v k : ℕ)
    → (align_up v (2 ^ k) % 2 ^ k ≡ 0)
      × (v ≤ align_up v (2 ^ k))
      × ((w : ℕ) → w % 2 ^ k ≡ 0 → v ≤ w → align_up v (2 ^ k) ≤ w)
align_up_least v k =
    let m = 2 ^ k in
    let x = v + m - 1 in
    (
      rw align_up_pow (sub_mod_whole x m),
      rw align_up_pow (omega (arith, pow_pos k, mod-lt x (pow_pos k))),
      λ w whole h. rw align_up_pow (round_least m v w (pow_pos k) whole h),
    )

pow_step : (k : ℕ) → 2 ^ (k + 1) ≡ 2 * 2 ^ k
pow_step k = rw (add-one, pow-suc) (omega arith)

bit_length_fuel_zero : (f : ℕ) → bit_length_fuel f 0 ≡ 0
unfolding bit_length_fuel
bit_length_fuel_zero zero = refl
bit_length_fuel_zero (suc f) = refl

bit_length_bounds :
    (f n : ℕ) → n ≤ f → 0 < n → (n < 2 ^ bit_length_fuel f n) × (2 ^ bit_length_fuel f n ≤ 2 * n)
unfolding bit_length_fuel
bit_length_bounds zero n h p = absurd (omega arith)
bit_length_bounds (suc f) zero h p = absurd (omega arith)
bit_length_bounds (suc f) (suc n) h p =
    let half = suc n / 2 in
    elim (dec_lt 0 half) [
      | yes q ↦
          let (lo, hi) = bit_length_bounds f half (omega arith) q in
          rw pow_step (omega (arith, lo, hi))
      | no q ↦ let e : n ≡ 0 = omega arith in rw (e, bit_length_fuel_zero f) (omega arith)
    ]

-- `next_pow2` is a power of two, and the least one that is not below its argument.
pub next_pow2_bounds :
    (n : ℕ) → 0 < n → (n ≤ next_pow2 n) × (next_pow2 n < 2 * n) × ((k : ℕ) × (next_pow2 n ≡ 2 ^ k))
unfolding next_pow2
next_pow2_bounds n h = elim (Bool-cases (leb n 1)) [
  | inl small ↦ rw small (ground arith, ground arith, (0, refl))
  | inr large ↦
      let (lo, hi) = bit_length_bounds (n - 1) (n - 1) (omega arith) (ground arith) in
      rw large (ground (arith, lo), ground (arith, hi), (bit_length (n - 1), refl))
]
