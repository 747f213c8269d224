-- ===== src/RowPack/Plan.antt =====
-- The rows of a plan: sorted by their offset, they lie one behind another.
use quorin.Base.{ℕ, ◌+◌, ◌≤◌, ◌<◌, ◌⊎◌, inl, inr, arith, List, [], ◌∷◌, ltb, All, Bool-cases}
use quorin.Schema.Offsets.{OffsetRow}
use quorin.Schema.Offsets.Geometry.{Packed}
use quorin.Schema.Table.{insert_row, sort_table}
use quorin.Schema.Table.Sorting.{All-insert_row, All-sort_table}
use quorin.RowPack.{PlanRow, insert_plan_row, sort_plan_rows}
use quorin.RowPack.Struct.{Chain}

-- Any two entries at different places are related.
abbrev pub Pairwise {ℓ κ} : {A : Type ℓ} → (A → A → Type κ) → List A → Type κ
Pairwise R [] = Unit
Pairwise R (x ∷ xs) = All (R x) xs × Pairwise R xs

abbrev All-map {ℓ κ μ} :
    {A : Type ℓ} (P : A → Type κ) (Q : A → Type μ) (xs : List A)
    → ((x : A) → P x → Q x)
    → All P xs
    → All Q xs
All-map P Q [] f a = tt
All-map P Q (x ∷ xs) f a = (f x a.0, All-map P Q xs f a.1)

abbrev pub RowsApart : OffsetRow → OffsetRow → Type 0
RowsApart r s =
    (r.byte_offset + r.byte_count ≤ s.byte_offset) ⊎ (s.byte_offset + s.byte_count ≤ r.byte_offset)

Packed-All : (lo : ℕ) (t : List OffsetRow) → Packed lo t → All (λ r. lo ≤ r.byte_offset) t
Packed-All lo [] p = tt
Packed-All lo (r ∷ t) p =
    let above = p.0 in
    (
      above,
      All-map (λ s. r.byte_offset + r.byte_count ≤ s.byte_offset) (λ s. lo ≤ s.byte_offset) t
          (λ s h. omega arith) (Packed-All (r.byte_offset + r.byte_count) t p.2),
    )

pub Packed-Pairwise : (lo : ℕ) (t : List OffsetRow) → Packed lo t → Pairwise RowsApart t
Packed-Pairwise lo [] p = tt
Packed-Pairwise lo (r ∷ t) p =
    let next = r.byte_offset + r.byte_count in
    (
      All-map (λ s. next ≤ s.byte_offset) (RowsApart r) t (λ s h. inl h) (Packed-All next t p.2),
      Packed-Pairwise next t p.2,
    )

insert_row-Pairwise :
    (r : OffsetRow) (t : List OffsetRow)
    → All (RowsApart r) t
    → Pairwise RowsApart t
    → Pairwise RowsApart (insert_row r t)
unfolding insert_row
insert_row-Pairwise r [] a p = (tt, tt)
insert_row-Pairwise r (s ∷ t) a p = elim (Bool-cases (ltb s.name_hash r.name_hash)) [
  | inl lt ↦
      rw lt (All-insert_row (RowsApart s) r t (flip r s a.0) p.0, insert_row-Pairwise r t a.1 p.1)
  | inr ge ↦ rw ge (a, p)
]
  where
    flip : (r s : OffsetRow) → RowsApart r s → RowsApart s r
    flip r s (inl h) = inr h
    flip r s (inr h) = inl h

pub sort_table-Pairwise :
    (t : List OffsetRow) → Pairwise RowsApart t → Pairwise RowsApart (sort_table t)
unfolding sort_table
sort_table-Pairwise [] p = tt
sort_table-Pairwise (r ∷ t) p =
    insert_row-Pairwise r (sort_table t) (All-sort_table (RowsApart r) t p.0)
      (sort_table-Pairwise t p.1)

-- The same of the rows of a plan
abbrev pub PlanApart : PlanRow → PlanRow → Type 0
PlanApart r s = (r.byte_off + r.byte_cnt ≤ s.byte_off) ⊎ (s.byte_off + s.byte_cnt ≤ r.byte_off)

All-insert_plan_row {ℓ} :
    (P : PlanRow → Type ℓ) (r : PlanRow) (t : List PlanRow)
    → P r
    → All P t
    → All P (insert_plan_row r t)
unfolding insert_plan_row
All-insert_plan_row P r [] p a = (p, tt)
All-insert_plan_row P r (s ∷ t) p a = elim (Bool-cases (ltb s.byte_off r.byte_off)) [
  | inl lt ↦ rw lt (a.0, All-insert_plan_row P r t p a.1)
  | inr ge ↦ rw ge (p, a)
]

insert_plan_row-All {ℓ} :
    (P : PlanRow → Type ℓ) (r : PlanRow) (t : List PlanRow)
    → All P (insert_plan_row r t)
    → P r × All P t
unfolding insert_plan_row
insert_plan_row-All P r [] a = a
insert_plan_row-All P r (s ∷ t) a = elim (Bool-cases (ltb s.byte_off r.byte_off)) [
  | inl lt ↦
      let b = rw lt at a in let rest = insert_plan_row-All P r t b.1 in (rest.0, (b.0, rest.1))
  | inr ge ↦ rw ge at a
]

pub All-sort_plan_rows {ℓ} :
    (P : PlanRow → Type ℓ) (t : List PlanRow) → All P t → All P (sort_plan_rows t)
unfolding sort_plan_rows
All-sort_plan_rows P [] a = tt
All-sort_plan_rows P (r ∷ t) a =
    All-insert_plan_row P r (sort_plan_rows t) a.0 (All-sort_plan_rows P t a.1)

pub sort_plan_rows-All {ℓ} :
    (P : PlanRow → Type ℓ) (t : List PlanRow) → All P (sort_plan_rows t) → All P t
unfolding sort_plan_rows
sort_plan_rows-All P [] a = tt
sort_plan_rows-All P (r ∷ t) a =
    let (first, rest) = insert_plan_row-All P r (sort_plan_rows t) a in
    (first, sort_plan_rows-All P t rest)

-- Sorted by offset, and apart
abbrev pub Ascending : List PlanRow → Type 0
Ascending = Pairwise (λ r s. (r.byte_off ≤ s.byte_off) × PlanApart r s)

insert_plan_row-Ascending :
    (r : PlanRow) (t : List PlanRow)
    → All (PlanApart r) t
    → Ascending t
    → Ascending (insert_plan_row r t)
unfolding insert_plan_row
insert_plan_row-Ascending r [] a p = (tt, tt)
insert_plan_row-Ascending r (s ∷ t) a p = elim (Bool-cases (ltb s.byte_off r.byte_off)) [
  | inl lt ↦ rw lt (
    All-insert_plan_row _ r t (ground arith, flip r s a.0) p.0,
    insert_plan_row-Ascending r t a.1 p.1,
  )
  | inr ge ↦ rw ge (((ground arith, a.0), below r s t (ground arith) a.1 p.0), p)
]
  where
    flip : (r s : PlanRow) → PlanApart r s → PlanApart s r
    flip r s (inl h) = inr h
    flip r s (inr h) = inl h

    below :
        (r s : PlanRow) (t : List PlanRow)
        → r.byte_off ≤ s.byte_off
        → All (PlanApart r) t
        → All (λ u. (s.byte_off ≤ u.byte_off) × PlanApart s u) t
        → All (λ u. (r.byte_off ≤ u.byte_off) × PlanApart r u) t
    below r s [] le a b = tt
    below r s (u ∷ t) le a b = let up = b.0.0 in ((omega arith, a.0), below r s t le a.1 b.1)

pub sort_plan_rows-Ascending :
    (t : List PlanRow) → Pairwise PlanApart t → Ascending (sort_plan_rows t)
unfolding sort_plan_rows
sort_plan_rows-Ascending [] p = tt
sort_plan_rows-Ascending (r ∷ t) p =
    insert_plan_row-Ascending r (sort_plan_rows t) (All-sort_plan_rows (PlanApart r) t p.0)
      (sort_plan_rows-Ascending t p.1)

-- Rows that ascend, are apart and are not empty lie one behind another.
pub Ascending-Chain :
    (lo : ℕ) (t : List PlanRow)
    → Ascending t
    → All (λ r. lo ≤ r.byte_off) t
    → All (λ r. 0 < r.byte_cnt) t
    → Chain lo t
Ascending-Chain lo [] p above wide = tt
Ascending-Chain lo (r ∷ t) p above wide =
    (above.0, Ascending-Chain (r.byte_off + r.byte_cnt) t p.1 (behind r t p.0 wide.1) wide.1)
  where
    behind :
        (r : PlanRow) (t : List PlanRow)
        → All (λ s. (r.byte_off ≤ s.byte_off) × PlanApart r s) t
        → All (λ s. 0 < s.byte_cnt) t
        → All (λ s. r.byte_off + r.byte_cnt ≤ s.byte_off) t
    behind r [] a wide = tt
    behind r (s ∷ t) a wide =
        let (up, apart) = a.0 in
        let some_byte = wide.0 in (omega (arith, up, apart, some_byte), behind r t a.1 wide.1)
