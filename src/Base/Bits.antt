-- ===== src/Base/Bits.antt =====
-- Masks. `x & (2 ** k - 1)` is a remainder, and `x & ~m` is `x - (x & m)` on unbounded integers.
use Prim.Native.Nat.{ℕ, zero, suc, ◌+◌, ◌-◌, ◌*◌, ◌/◌, ◌%◌, ◌^◌, ◌≤◌, ◌<◌, min, bit_and}
use Prim.Native.Nat.{digits, bit_and-bitwise}
use mathlib.Core.Path.{◌≡◌, refl, sym, ap, ◌∙◌}
use native.Mathlib.Nat.{pow-suc, one-le-pow, div-add-mod, div-div-eq-div-mul, mul_comm, zero-mod}
use native.Mathlib.Omega.{arith}

-- Python's `x & ~m`, for `x` and `m` of any size.
abbrev pub clear_bits : ℕ → ℕ → ℕ
clear_bits x m = x - bit_and x m

pub pow_pos : (k : ℕ) → 0 < 2 ^ k
pow_pos k = one-le-pow k 2 (omega arith)

and_zero : (n a : ℕ) → digits (λ b. zero) min n a 0 ≡ 0
and_zero zero a = refl
and_zero (suc n) zero = refl
and_zero (suc n) (suc a) = omega (arith, and_zero n (suc a / 2))

-- The lowest digit of a remainder by an even number.
mod_double : (a m : ℕ) → 0 < m → a % (m * 2) ≡ (a / 2) % m * 2 + a % 2
mod_double a m h =
    let e : a / 2 / m ≡ a / (m * 2) =
      div-div-eq-div-mul a 2 m ∙ ap (λ (t : ℕ). a / t) (mul_comm 2 m) in
    omega (arith, div-add-mod a (m * 2), div-add-mod (a / 2) m, ap (λ (t : ℕ). m * t) e)

and_mask : (n a k : ℕ) → a ≤ n → digits (λ b. zero) min n a (2 ^ k - 1) ≡ a % 2 ^ k
and_mask zero a k h = let e : a ≡ 0 = omega arith in rw e (sym (zero-mod (2 ^ k)))
and_mask (suc n) zero k h = sym (zero-mod (2 ^ k))
and_mask (suc n) (suc a) zero h = omega (arith, and_zero n (suc a / 2))
and_mask (suc n) (suc a) (suc k) h =
    let half : (2 ^ suc k - 1) / 2 ≡ 2 ^ k - 1 = omega (arith, pow-suc 2 k, pow_pos k) in
    let low : (2 ^ suc k - 1) % 2 ≡ 1 = omega (arith, pow-suc 2 k, pow_pos k) in
    let rest = and_mask n (suc a / 2) k (omega arith) in
    rw (half, low, rest, pow-suc 2 k) (omega (arith, mod_double (suc a) (2 ^ k) (pow_pos k)))

pub bit_and_mask : (a k : ℕ) → bit_and a (2 ^ k - 1) ≡ a % 2 ^ k
bit_and_mask a k = bit_and-bitwise a (2 ^ k - 1) ∙ and_mask a a k (omega arith)
