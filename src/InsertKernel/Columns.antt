-- ===== src/InsertKernel/Columns.antt =====
-- What `_prepare_insert_columns` puts into `field_data`, as the kernel reads it.
use quorin.Base.{
  ℕ, zero, suc, ◌+◌, ◌*◌, ◌≤◌, ◌<◌, ◌≡◌, sym, subst, arith, List, [], ◌∷◌, ◌++◌, length, All, inl,
  inr,
}
use native.Mathlib.Decide.{ℕ_discrete}
use quorin.Memory.{Memory, read_bytes, write_bytes}
use quorin.Memory.Frame.{Apart}
use quorin.Schema.Offsets.{OffsetRow}
use quorin.Segment.{Write, apply_writes}
use quorin.Segment.Insert.{apply_writes-first}
use quorin.Segment.Writes.{apply_writes-append, apply_writes-cons, All-append}
use quorin.InsertKernel.{KernelField, kernel_fields, column_writes, data_writes}

-- For each field, `n` rows of as many bytes as the field has
abbrev pub Sized : ℕ → List OffsetRow → List (ℕ → List ℕ) → Type 0
Sized n [] [] = Unit
Sized n [] (c ∷ cs) = ⊥
Sized n (r ∷ t) [] = ⊥
Sized n (r ∷ t) (c ∷ cs) = ((i : ℕ) → i < n → length (c i) ≡ r.byte_count) × Sized n t cs

slice_step : (i k cnt : ℕ) → i < k → i * cnt + cnt ≤ k * cnt
slice_step i k cnt h = grind arith

-- The writes of a column from row `k` are apart from what lies before them.
columns_above :
    (start cnt : ℕ) (c : ℕ → List ℕ) (k n b j : ℕ)
    → b + j ≤ start + k * cnt
    → All (λ w. Apart w.0 (length w.1) b j) (column_writes start cnt c k n)
unfolding column_writes
columns_above start cnt c k zero b j h = tt
columns_above start cnt c k (suc n) b j h =
    (inr h, columns_above start cnt c (suc k) n b j (omega (arith, slice_step k (suc k) cnt)))

columns_below :
    (n : ℕ) (c : ℕ → List ℕ) (cnt : ℕ)
    → ((i : ℕ) → i < n → length (c i) ≡ cnt)
    → (start k m b j : ℕ) → k + m ≤ n
    → start + n * cnt ≤ b
    → All (λ w. Apart w.0 (length w.1) b j) (column_writes start cnt c k m)
unfolding column_writes
columns_below n c cnt sized start k zero b j e h = tt
columns_below n c cnt sized start k (suc m) b j e h = (
  inl (omega (arith, sized k (omega arith), slice_step k n cnt (omega arith))),
  columns_below n c cnt sized start (suc k) m b j (omega arith) h,
)

-- The columns of the later fields lie behind.
data_above :
    (n start : ℕ) (t : List OffsetRow) (cs : List (ℕ → List ℕ)) (b j : ℕ)
    → b + j ≤ start
    → All (λ w. Apart w.0 (length w.1) b j) (data_writes n (kernel_fields n start t) cs)
unfolding data_writes kernel_fields
data_above n start [] cs b j h = tt
data_above n start (r ∷ t) [] b j h = tt
data_above n start (r ∷ t) (c ∷ cs) b j h =
    All-append (λ w. Apart w.0 (length w.1) b j) (column_writes start r.byte_count c 0 n) _
      (columns_above start r.byte_count c 0 n b j (omega arith))
      (data_above n (start + r.byte_count * n) t cs b j (omega arith))

-- Row `i` of a column is read back.
column_read :
    (m : Memory) (start cnt : ℕ) (c : ℕ → List ℕ) (rest : List Write) (i k n : ℕ)
    → k ≤ i
    → i < k + n
    → length (c i) ≡ cnt
    → All (λ w. Apart w.0 (length w.1) (start + i * cnt) cnt) rest
    → read_bytes (apply_writes m (column_writes start cnt c k n ++ rest)) (start + i * cnt) cnt
      ≡ c i
unfolding column_writes
column_read m start cnt c rest i k zero p q len h = absurd (omega arith)
column_read m start cnt c rest i k (suc n) p q len h = elim (ℕ_discrete k i) [
  | yes e ↦ rw e (
      apply_writes-first (start + i * cnt) (c i) _ m cnt len (
        All-append (λ w. Apart w.0 (length w.1) (start + i * cnt) cnt)
          (column_writes start cnt c (suc i) n) rest
          (columns_above start cnt c (suc i) n (start + i * cnt) cnt
            (omega (arith, slice_step i (suc i) cnt)))
          h))
  | no ne ↦
      rw (apply_writes-cons m (start + k * cnt) (c k) (column_writes start cnt c (suc k) n ++ rest))
        (column_read (write_bytes m (start + k * cnt) (c k)) start cnt c rest i (suc k) n
          (omega arith) (omega arith) len h)
]

-- What the kernel reads of `field_data` for row `i` are the bytes of the columns.
abbrev pub ReadsColumns : Memory → ℕ → List KernelField → List (ℕ → List ℕ) → Type 0
ReadsColumns m i [] cs = Unit
ReadsColumns m i (f ∷ fs) [] = ⊥
ReadsColumns m i (f ∷ fs) (c ∷ cs) =
    (read_bytes m (f.data_start + i * f.byte_count) f.byte_count ≡ c i) × ReadsColumns m i fs cs

pub data_writes-ReadsColumns :
    (m : Memory) (n start : ℕ) (t : List OffsetRow) (cs : List (ℕ → List ℕ)) (i : ℕ)
    → i < n
    → Sized n t cs
    → ReadsColumns
        (apply_writes m (data_writes n (kernel_fields n start t) cs))
        i
        (kernel_fields n start t)
        cs
unfolding data_writes kernel_fields
data_writes-ReadsColumns m n start [] cs i lt sized = tt
data_writes-ReadsColumns m n start (r ∷ t) [] i lt sized = absurd sized
data_writes-ReadsColumns m n start (r ∷ t) (c ∷ cs) i lt sized =
    let mine = column_writes start r.byte_count c 0 n in
    let next = start + r.byte_count * n in
    let later = data_writes n (kernel_fields n next t) cs in
    let slice = slice_step i n r.byte_count lt in
    (
      column_read m start r.byte_count c later i 0 n (omega arith) (omega arith) (sized.0 i lt)
          (data_above n next t cs (start + i * r.byte_count) r.byte_count (grind arith)),
      subst (λ b. ReadsColumns b i (kernel_fields n next t) cs)
          (sym (apply_writes-append m mine later))
          (data_writes-ReadsColumns (apply_writes m mine) n next t cs i lt sized.1),
    )
