-- ===== src/Memory/Order.antt =====
-- The order of writes, and memory from what was read.
use quorin.Base.{
  ℕ, zero, suc, ◌+◌, ◌≤◌, ◌<◌, ◌≡◌, refl, sym, ◌∙◌, ap, ap₂, fun_ext, arith, List, [], ◌∷◌, length,
  ◌⊎◌, inl, inr,
}
use native.Mathlib.Decide.{dec_lt}
use quorin.Memory.{Memory, read_bytes, write_bytes, le_bytes, from_le}
use quorin.Memory.Frame.{Apart, write_bytes-outside, read_bytes_congr}

-- An address is outside an extent or in it.
pub outside_or_inside : (a n x : ℕ) → ((x < a) ⊎ (a + n ≤ x)) ⊎ ((a ≤ x) × (x < a + n))
outside_or_inside a n x = elim (dec_lt x a) [
  | yes lt ↦ inl (inl lt)
  | no ge ↦ elim (dec_lt x (a + n)) [
    | yes lt ↦ inr (omega arith, lt)
    | no above ↦ inl (inr (omega arith))
  ]
]

-- A byte inside what was written does not depend on what stood there.
pub write_bytes-inside :
    (m n : Memory) (a : ℕ) (bs : List ℕ) (x : ℕ)
    → a ≤ x
    → x < a + length bs
    → write_bytes m a bs x ≡ write_bytes n a bs x
unfolding write_bytes
write_bytes-inside m n a [] x p q = absurd (omega arith)
write_bytes-inside m n a (b ∷ bs) x p q = ground (arith, write_bytes-inside m n (suc a) bs x)

pub write_bytes_comm :
    (m : Memory) (a : ℕ) (bs : List ℕ) (b : ℕ) (cs : List ℕ)
    → Apart a (length bs) b (length cs)
    → write_bytes (write_bytes m a bs) b cs ≡ write_bytes (write_bytes m b cs) a bs
write_bytes_comm m a bs b cs h = fun_ext λ x. elim (outside_or_inside b (length cs) x) [
  | inl out ↦
      write_bytes-outside (write_bytes m a bs) b cs x out
      ∙ (elim (outside_or_inside a (length bs) x) [
        | inl out' ↦
            write_bytes-outside m a bs x out'
            ∙ sym (
                write_bytes-outside (write_bytes m b cs) a bs x out'
                ∙ write_bytes-outside m b cs x out)
        | inr within ↦ write_bytes-inside m (write_bytes m b cs) a bs x (within.0) (within.1)
      ])
  | inr within ↦
      write_bytes-inside (write_bytes m a bs) m b cs x (within.0) (within.1)
      ∙ sym (write_bytes-outside (write_bytes m b cs) a bs x (omega arith))
]

-- The second of two writes to one extent hides the first.
pub write_bytes-again :
    (m : Memory) (a : ℕ) (bs cs : List ℕ)
    → length bs ≡ length cs
    → write_bytes (write_bytes m a bs) a cs ≡ write_bytes m a cs
write_bytes-again m a bs cs e = fun_ext λ x. elim (outside_or_inside a (length cs) x) [
  | inl out ↦
      write_bytes-outside (write_bytes m a bs) a cs x out
      ∙ write_bytes-outside m a bs x (omega arith)
      ∙ sym (write_bytes-outside m a cs x out)
  | inr within ↦ write_bytes-inside (write_bytes m a bs) m a cs x (within.0) (within.1)
]

-- Writing what another memory holds there
pub write_bytes-read_bytes :
    (m n : Memory) (a k x : ℕ) → a ≤ x → x < a + k → write_bytes m a (read_bytes n a k) x ≡ n x
unfolding write_bytes read_bytes
write_bytes-read_bytes m n a zero x p q = absurd (omega arith)
write_bytes-read_bytes m n a (suc k) x p q = elim (dec_lt a x) [
  | yes lt ↦ ground (arith, write_bytes-read_bytes m n (suc a) k x)
  | no ge ↦ let e : x ≡ a = omega arith in ground (arith, ap n e)
]

abbrev heads : ℕ → List ℕ → ℕ
heads d [] = d
heads d (x ∷ xs) = x

abbrev tails : List ℕ → List ℕ
tails [] = []
tails (x ∷ xs) = xs

-- What was read alike is alike, byte by byte.
pub read_bytes-byte :
    (m n : Memory) (a k x : ℕ) → read_bytes m a k ≡ read_bytes n a k → a ≤ x → x < a + k → m x ≡ n x
unfolding read_bytes
read_bytes-byte m n a zero x e p q = absurd (omega arith)
read_bytes-byte m n a (suc k) x e p q = elim (dec_lt a x) [
  | yes lt ↦ read_bytes-byte m n (suc a) k x (ap tails e) (omega arith) (omega arith)
  | no ge ↦ let at : x ≡ a = omega arith in ap m at ∙ ap (heads 0) e ∙ sym (ap n at)
]

-- And so is every part of it.
pub read_bytes-part :
    (m n : Memory) (a k b j : ℕ)
    → read_bytes m a k ≡ read_bytes n a k
    → a ≤ b
    → b + j ≤ a + k
    → read_bytes m b j ≡ read_bytes n b j
read_bytes-part m n a k b j e p q =
    read_bytes_congr m n b j (λ i lo hi. read_bytes-byte m n a k i e (omega arith) (omega arith))

pub write_bytes-same :
    (m : Memory) (a : ℕ) (bs : List ℕ) → read_bytes m a (length bs) ≡ bs → write_bytes m a bs ≡ m
write_bytes-same m a bs e = fun_ext λ x. elim (outside_or_inside a (length bs) x) [
  | inl out ↦ write_bytes-outside m a bs x out
  | inr within ↦
      ap (λ t. write_bytes m a t x) (sym e)
      ∙ write_bytes-read_bytes m m a (length bs) x (within.0) (within.1)
]

-- The bytes of zero
pub from_le-zero : (bs : List ℕ) → from_le bs ≡ 0 → bs ≡ le_bytes (length bs) 0
unfolding from_le le_bytes
from_le-zero [] e = refl
from_le-zero (b ∷ bs) e = ap₂ ◌∷◌ (omega arith) (from_le-zero bs (omega arith))
