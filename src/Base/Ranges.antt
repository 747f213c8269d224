-- ===== src/Base/Ranges.antt =====
-- Facts about every number below a bound.
use Prim.Native.Nat.{ℕ, suc, ◌<◌}
use mathlib.Core.Path.{◌≡◌, sym, subst}
use native.Mathlib.Decide.{dec_lt}
use native.Mathlib.Omega.{arith}

pub below_suc {ℓ} :
    (P : ℕ → Type ℓ) (n : ℕ) → ((j : ℕ) → j < n → P j) → P n → (j : ℕ) → j < suc n → P j
below_suc P n before last j h = elim (dec_lt j n) [
  | yes lt ↦ before j lt
  | no ge ↦ let e : j ≡ n = omega arith in subst P (sym e) last
]
