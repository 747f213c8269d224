-- ===== src/RowPack/Rows.antt =====
-- The rows of the plan of a schema.
use mathlib.Core.List.{foldl}
use quorin.Base.{
  ℕ, suc, ◌+◌, ◌*◌, ◌<◌, ◌≡◌, refl, sym, ◌∙◌, ap, arith, true, false, none, some, List, [], ◌∷◌,
  ==_self, All,
}
use quorin.Result.{ok}
use quorin.Align.{align_up}
use quorin.Schema.{
  FeatureField, DType, float32, float64, int32, int64, uint8, byte_count, element_count, dtype_code,
  dtype_byte_size, is_empty,
}
use quorin.Schema.Offsets.{OffsetRow, field_row, fill_table, field_byte_offsets}
use quorin.Schema.Table.{contains_hash, has_collision}
use quorin.Assembly.{item_size}
use quorin.RowPack.{PlanRow, plan_row, plan_rows, shape_by_hash, shape_at}
use quorin.RowPack.Plan.{Pairwise, RowsApart, PlanApart}

module _ (hash : List ℕ → ℕ) where
  abbrev Shaped : List FeatureField → FeatureField → Type 0
  Shaped fields f = shape_by_hash hash fields (hash f.name) ≡ some f.shape

  shape_by_hash-none :
      (fs : List FeatureField) (c h : ℕ)
      → contains_hash h (fill_table hash fs (field_byte_offsets fs c)) ≡ false
      → shape_by_hash hash fs h ≡ none
  unfolding shape_by_hash fill_table field_byte_offsets field_row
  shape_by_hash-none [] c h apart = refl
  shape_by_hash-none (f ∷ fs) c h apart =
      let rest = shape_by_hash-none fs (align_up c 64 + byte_count f) h (ground arith) in
      rw rest (ground arith)

  Shaped-later :
      (g : FeatureField) (fs ks : List FeatureField) → All (Shaped fs) ks → All (Shaped (g ∷ fs)) ks
  unfolding shape_by_hash
  Shaped-later g fs [] a = tt
  Shaped-later g fs (k ∷ ks) a = (rw a.0 refl, Shaped-later g fs ks a.1)

  pub all-Shaped :
      (fs : List FeatureField) (c : ℕ)
      → has_collision (fill_table hash fs (field_byte_offsets fs c)) ≡ false
      → All (Shaped fs) fs
  unfolding fill_table field_byte_offsets field_row shape_by_hash
  all-Shaped [] c apart = tt
  all-Shaped (f ∷ fs) c apart =
      let next = align_up c 64 + byte_count f in
      let others = shape_by_hash-none fs next (hash f.name) (ground arith) in
      (
        rw (others, ==_self (hash f.name)) refl,
        Shaped-later f fs fs (all-Shaped fs next (ground arith)),
      )

  -- A row of a table, the shape of its field, and what the two have to do with each other
  pub record HasShape (fields : List FeatureField) (r : OffsetRow) : Type 0 where
    pub shape : List ℕ
    pub there : shape_by_hash hash fields r.name_hash ≡ some shape
    pub item : is_empty shape ≡ true → item_size r.dtype_code ≡ r.byte_count

  item_size-dtype_code : (d : DType) → item_size (dtype_code d) ≡ dtype_byte_size d
  unfolding item_size dtype_code dtype_byte_size
  item_size-dtype_code float32 = refl
  item_size-dtype_code float64 = refl
  item_size-dtype_code int32 = refl
  item_size-dtype_code int64 = refl
  item_size-dtype_code uint8 = refl

  scalar_width :
      (f : FeatureField) (shape : List ℕ)
      → f.shape ≡ shape
      → is_empty shape ≡ true
      → item_size (dtype_code f.dtype) ≡ byte_count f
  unfolding byte_count element_count
  scalar_width f [] e h =
      let w = dtype_byte_size f.dtype in
      let one : foldl (λ count d. count * d) 1 f.shape ≡ 1 =
        ap (foldl (λ count d. count * d) 1) e in
      item_size-dtype_code f.dtype ∙ sym (ap (λ n. n * w) one ∙ (omega arith))
  scalar_width f (d ∷ ds) e h = cc

  pub fill_table-HasShape :
      (fields fs : List FeatureField) (c : ℕ)
      → All (Shaped fields) fs
      → All (HasShape fields) (fill_table hash fs (field_byte_offsets fs c))
  unfolding fill_table field_byte_offsets field_row
  fill_table-HasShape fields [] c a = tt
  fill_table-HasShape fields (f ∷ fs) c a = (
    record { shape = f.shape; there = a.0; item = scalar_width f f.shape refl },
    fill_table-HasShape fields fs (align_up c 64 + byte_count f) a.1,
  )

  pub fill_table-wide :
      (fs : List FeatureField) (c : ℕ)
      → All (λ f. 0 < byte_count f) fs
      → All (λ r. 0 < r.byte_count) (fill_table hash fs (field_byte_offsets fs c))
  unfolding fill_table field_byte_offsets field_row
  fill_table-wide [] c a = tt
  fill_table-wide (f ∷ fs) c a = (a.0, fill_table-wide fs (align_up c 64 + byte_count f) a.1)

  module _ (fields : List FeatureField) where
    -- The rows of the plan, with the shapes at hand
    abbrev pub built : (i : ℕ) (t : List OffsetRow) → All (HasShape fields) t → List PlanRow
    built i [] a = []
    built i (r ∷ t) a = plan_row r a.0.shape i ∷ built (suc i) t a.1

    pub plan_rows-built :
        (i : ℕ) (t : List OffsetRow) (a : All (HasShape fields) t)
        → plan_rows hash fields i t ≡ ok (built i t a)
    unfolding plan_rows shape_at
    plan_rows-built i [] a = refl
    plan_rows-built i (r ∷ t) a = rw (a.0.there, plan_rows-built (suc i) t a.1) refl

    pub built-All {ℓ κ} :
        (P : OffsetRow → Type ℓ) (Q : PlanRow → Type κ)
        → ((r : OffsetRow) (h : HasShape fields r) (i : ℕ) → P r → Q (plan_row r h.shape i))
        → (i : ℕ) (t : List OffsetRow) (a : All (HasShape fields) t) → All P t
        → All Q (built i t a)
    built-All P Q f i [] a p = tt
    built-All P Q f i (r ∷ t) a p = (f r a.0 i p.0, built-All P Q f (suc i) t a.1 p.1)

    pub built-Pairwise :
        (i : ℕ) (t : List OffsetRow) (a : All (HasShape fields) t)
        → Pairwise RowsApart t
        → Pairwise PlanApart (built i t a)
    built-Pairwise i [] a p = tt
    built-Pairwise i (r ∷ t) a p = (
      built-All (RowsApart r) (PlanApart (plan_row r a.0.shape i)) (λ s h j apart. apart) (suc i) t
          a.1 p.0,
      built-Pairwise (suc i) t a.1 p.1,
    )
