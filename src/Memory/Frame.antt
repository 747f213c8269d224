-- ===== src/Memory/Frame.antt =====
-- What a read sees after a write: the bytes that were written, or those that stood there.
use quorin.Base.{
  ℕ, zero, suc, ◌+◌, ◌/◌, ◌^◌, ◌≤◌, ◌<◌, ◌≡◌, refl, ap, ap₂, subst, ◌∙◌, arith, List, [], ◌∷◌, ◌⊎◌,
  length,
}
use quorin.Memory.{
  Memory, read_bytes, write_bytes, le_bytes, from_le, read_u32, read_u64, write_u32, write_u64,
}

-- Two extents have no byte in common.
abbrev pub Apart : ℕ → ℕ → ℕ → ℕ → Type 0
Apart a n b k = (a + n ≤ b) ⊎ (b + k ≤ a)

pub write_bytes-outside :
    (m : Memory) (a : ℕ) (bs : List ℕ) (i : ℕ)
    → (i < a) ⊎ (a + length bs ≤ i)
    → write_bytes m a bs i ≡ m i
unfolding write_bytes
write_bytes-outside m a [] i h = refl
write_bytes-outside m a (b ∷ bs) i h = ground (arith, write_bytes-outside m (suc a) bs i)

-- Memories that agree on an extent read alike there.
pub read_bytes_congr :
    (m n : Memory) (b k : ℕ)
    → ((i : ℕ) → b ≤ i → i < b + k → m i ≡ n i)
    → read_bytes m b k ≡ read_bytes n b k
unfolding read_bytes
read_bytes_congr m n b zero h = refl
read_bytes_congr m n b (suc k) h =
    ap₂ ◌∷◌ (h b (omega arith) (omega arith))
      (read_bytes_congr m n (suc b) k (λ i p q. h i (omega arith) (omega arith)))

pub read_bytes-write_bytes-Apart :
    (m : Memory) (a : ℕ) (bs : List ℕ) (b k : ℕ)
    → Apart a (length bs) b k
    → read_bytes (write_bytes m a bs) b k ≡ read_bytes m b k
read_bytes-write_bytes-Apart m a bs b k h =
    read_bytes_congr (write_bytes m a bs) m b k
      (λ i p q. write_bytes-outside m a bs i (omega arith))

pub read_bytes-write_bytes_self :
    (m : Memory) (a : ℕ) (bs : List ℕ) → read_bytes (write_bytes m a bs) a (length bs) ≡ bs
unfolding read_bytes write_bytes
read_bytes-write_bytes_self m a [] = refl
read_bytes-write_bytes_self m a (b ∷ bs) = ap₂ ◌∷◌ (ground arith) (
    read_bytes_congr (write_bytes m a (b ∷ bs)) (write_bytes m (suc a) bs) (suc a) (length bs)
      (λ i p q. ground arith)
    ∙ read_bytes-write_bytes_self m (suc a) bs)

pub read_bytes-write_bytes :
    (m : Memory) (a : ℕ) (bs : List ℕ) (n : ℕ)
    → length bs ≡ n
    → read_bytes (write_bytes m a bs) a n ≡ bs
read_bytes-write_bytes m a bs n e =
    subst (λ k. read_bytes (write_bytes m a bs) a k ≡ bs) e (read_bytes-write_bytes_self m a bs)

pub length-read_bytes : (m : Memory) (a n : ℕ) → length (read_bytes m a n) ≡ n
unfolding read_bytes
length-read_bytes m a zero = refl
length-read_bytes m a (suc n) = ap suc (length-read_bytes m (suc a) n)

pub length-le_bytes : (n v : ℕ) → length (le_bytes n v) ≡ n
unfolding le_bytes
length-le_bytes zero v = refl
length-le_bytes (suc n) v = ap suc (length-le_bytes n (v / 256))

pub from_le-le_bytes_4 : (v : ℕ) → v < 2 ^ 32 → from_le (le_bytes 4 v) ≡ v
unfolding from_le le_bytes
from_le-le_bytes_4 v h = omega arith

pub from_le-le_bytes_8 : (v : ℕ) → v < 2 ^ 64 → from_le (le_bytes 8 v) ≡ v
unfolding from_le le_bytes
from_le-le_bytes_8 v h = omega arith

pub read_u32-write_u32 : (m : Memory) (a v : ℕ) → v < 2 ^ 32 → read_u32 (write_u32 m a v) a ≡ v
unfolding read_u32 write_u32
read_u32-write_u32 m a v h =
    ap from_le (read_bytes-write_bytes m a (le_bytes 4 v) 4 (length-le_bytes 4 v))
    ∙ from_le-le_bytes_4 v h

pub read_u64-write_u64 : (m : Memory) (a v : ℕ) → v < 2 ^ 64 → read_u64 (write_u64 m a v) a ≡ v
unfolding read_u64 write_u64
read_u64-write_u64 m a v h =
    ap from_le (read_bytes-write_bytes m a (le_bytes 8 v) 8 (length-le_bytes 8 v))
    ∙ from_le-le_bytes_8 v h

-- What lies on an extent is the same in two memories.
pub record SameOn (m n : Memory) (lo hi : ℕ) : Type 0 where
  pub same : (i : ℕ) → lo ≤ i → i < hi → m i ≡ n i

pub SameOn-refl : (m : Memory) (lo hi : ℕ) → SameOn m m lo hi
SameOn-refl m lo hi = record { same = λ i p q. refl }

pub SameOn-trans :
    {m n k : Memory} {lo hi : ℕ} → SameOn m n lo hi → SameOn n k lo hi → SameOn m k lo hi
SameOn-trans s t = record { same = λ i p q. s.same i p q ∙ t.same i p q }

pub SameOn-sub :
    {m n : Memory} {lo hi : ℕ} (a b : ℕ) → SameOn m n lo hi → lo ≤ a → b ≤ hi → SameOn m n a b
SameOn-sub a b s p q = record { same = λ i h k. s.same i (omega arith) (omega arith) }

pub write_bytes-SameOn :
    (m : Memory) (a : ℕ) (bs : List ℕ) (lo hi : ℕ)
    → (hi ≤ a) ⊎ (a + length bs ≤ lo)
    → SameOn (write_bytes m a bs) m lo hi
write_bytes-SameOn m a bs lo hi h = record {
  same = λ i p q. write_bytes-outside m a bs i (omega arith);
}

pub read_bytes-SameOn :
    {m n : Memory} {lo hi : ℕ} (b k : ℕ)
    → SameOn m n lo hi
    → lo ≤ b
    → b + k ≤ hi
    → read_bytes m b k ≡ read_bytes n b k
read_bytes-SameOn {m} {n} b k s p q =
    read_bytes_congr m n b k (λ i h j. s.same i (omega arith) (omega arith))
