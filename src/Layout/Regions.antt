-- ===== src/Layout/Regions.antt =====
-- The regions of a computed layout.
use quorin.Base.{
  ℕ, ◌+◌, ◌*◌, ◌%◌, ◌^◌, ◌≤◌, ◌<◌, ◌≡◌, refl, sym, subst, arith, ltb, ◌==◌, ltb→le, List,
}
use quorin.Result.{ok, value_error, ◌>>=◌, ◌>>◌, raise_if, >>=-eq-ok, raise_if-eq-ok}
use quorin.Align.{align_up, next_pow2, next_pow2_bounds, align_up_64, align_up_4096}
use quorin.Schema.{FeatureField, total_element_count}
use quorin.Schema.Offsets.{OffsetRow, compute_assembly_table}
use quorin.Schema.Table.{row_size, compute_row_offset_table}
use quorin.Schema.Table.Rows.{row_size_covers}
use quorin.Layout.{
  SegmentLayout, derive_layout, compute_layout, max_total_segment_bytes, max_id_bytes_ceiling,
}

-- Header and cursors, slot table, string pool and feature rows, in this order, do not overlap.
pub record IsLayout (l : SegmentLayout) : Type 0 where
  pub capacity_pos : 0 < l.capacity
  pub capacity_u32 : l.capacity < 2 ^ 32
  pub id_pos : 0 < l.max_id_bytes
  pub id_ceiling : l.max_id_bytes ≤ max_id_bytes_ceiling
  pub slots_double : l.capacity * 2 ≤ l.slot_capacity
  pub slots_below : l.slot_capacity < 4 * l.capacity
  pub slot_table : l.slot_table_offset ≡ 64
  pub slot_table_size : l.slot_table_bytes ≡ l.slot_capacity * 24
  pub pool_behind : 64 + l.slot_capacity * 24 ≤ l.string_pool_offset
  pub pool_header : l.string_pool_data_offset ≡ l.string_pool_offset + 8
  pub pool_size : l.string_pool_data_bytes ≡ l.capacity * (4 + l.max_id_bytes)
  pub rows_behind : l.string_pool_data_offset + l.string_pool_data_bytes ≤ l.feature_rows_offset
  pub rows_aligned : l.feature_rows_offset % 64 ≡ 0
  pub row_aligned : l.row_size % 64 ≡ 0
  pub rows_size : l.feature_rows_bytes ≡ l.capacity * l.row_size
  pub rows_inside : l.feature_rows_offset + l.feature_rows_bytes ≤ l.total_size
  pub total_paged : l.total_size % 4096 ≡ 0
  pub total_bound : l.total_size ≤ max_total_segment_bytes

-- The number of slots is a power of two, so that `& (slot_capacity - 1)` is a remainder.
abbrev pub SlotsPow2 : SegmentLayout → Type 0
SlotsPow2 l = (k : ℕ) × (l.slot_capacity ≡ 2 ^ k)

module _ (capacity max_id : ℕ) (rs : ℕ) (offsets assembly : List OffsetRow) (elements : ℕ) where
  derive_layout-IsLayout :
      0 < capacity
      → capacity < 2 ^ 32
      → 0 < max_id
      → max_id ≤ max_id_bytes_ceiling
      → rs % 64 ≡ 0
      → (derive_layout capacity max_id rs offsets assembly elements).total_size
        ≤ max_total_segment_bytes
      → IsLayout (derive_layout capacity max_id rs offsets assembly elements)
        × SlotsPow2 (derive_layout capacity max_id rs offsets assembly elements)
  unfolding derive_layout
  derive_layout-IsLayout cpos cmax ipos imax aligned total =
      let (lo, hi, pow) = next_pow2_bounds (capacity * 2) (omega arith) in
      let slots = next_pow2 (capacity * 2) in
      let pool = align_up (64 + slots * 24) 64 in
      let pool_end = pool + 8 + capacity * (4 + max_id) in
      let rows = align_up pool_end 64 in
      let pool_up = align_up_64 (64 + slots * 24) in
      let rows_up = align_up_64 pool_end in
      let total_up = align_up_4096 (rows + capacity * rs) in
      (
        record {
          capacity_pos = cpos;
          capacity_u32 = cmax;
          id_pos = ipos;
          id_ceiling = imax;
          slots_double = lo;
          slots_below = omega (arith, hi);
          slot_table = refl;
          slot_table_size = refl;
          pool_behind = omega (arith, pool_up);
          pool_header = refl;
          pool_size = refl;
          rows_behind = omega (arith, rows_up);
          rows_aligned = omega (arith, rows_up);
          row_aligned = aligned;
          rows_size = refl;
          rows_inside = omega (arith, total_up);
          total_paged = omega (arith, total_up);
          total_bound = total;
        },
        pow,
      )

module _ (hash : List ℕ → ℕ) (fields : List FeatureField) where
  -- What a successful call of `compute_layout` has computed
  pub record Computed (capacity max_id : ℕ) (l : SegmentLayout) : Type 0 where
    pub cap_pos : 0 < capacity
    pub id_pos : 0 < max_id
    pub id_ceiling : max_id ≤ max_id_bytes_ceiling
    pub cap_u32 : capacity ≤ 0xffff_ffff
    pub rs : ℕ
    pub row_ok : row_size hash fields ≡ ok rs
    pub offsets : List OffsetRow
    pub offsets_ok : compute_row_offset_table hash fields ≡ ok offsets
    pub layout :
        l
        ≡ derive_layout capacity max_id rs offsets
            (compute_assembly_table hash fields)
            (total_element_count fields)
    pub total : l.total_size ≤ max_total_segment_bytes

  pub compute_layout-Computed :
      (capacity max_id : ℕ) (l : SegmentLayout)
      → compute_layout hash fields capacity max_id ≡ ok l
      → Computed capacity max_id l
  unfolding compute_layout
  compute_layout-Computed capacity max_id l h =
      let (c, h₁) = raise_if-eq-ok (capacity == 0) value_error _ h in
      let (i, h₂) = raise_if-eq-ok (max_id == 0) value_error _ h₁ in
      let (j, h₃) = raise_if-eq-ok (ltb max_id_bytes_ceiling max_id) value_error _ h₂ in
      let (u, h₄) = raise_if-eq-ok (ltb 0xffff_ffff capacity) value_error _ h₃ in
      let assembly = compute_assembly_table hash fields in
      let made = λ (rs : ℕ) (offsets : List OffsetRow).
        derive_layout capacity max_id rs offsets assembly (total_element_count fields) in
      let checked = λ (rs : ℕ) (offsets : List OffsetRow).
        raise_if (ltb max_total_segment_bytes (made rs offsets).total_size) value_error
        >> ok (made rs offsets) in
      let (rs, row, h₅) =
        >>=-eq-ok (row_size hash fields) (λ rs. compute_row_offset_table hash fields >>= checked rs)
          h₄ in
      let (offsets, tab, h₆) = >>=-eq-ok (compute_row_offset_table hash fields) (checked rs) h₅ in
      let (t, h₇) =
        raise_if-eq-ok (ltb max_total_segment_bytes (made rs offsets).total_size) value_error
          (ok (made rs offsets)) h₆ in
      let e : made rs offsets ≡ l = cc in
      record {
        cap_pos = ground arith;
        id_pos = ground arith;
        id_ceiling = ltb→le _ _ j;
        cap_u32 = ltb→le _ _ u;
        rs = rs;
        row_ok = row;
        offsets = offsets;
        offsets_ok = tab;
        layout = sym e;
        total = subst (λ d. d.total_size ≤ max_total_segment_bytes) e (ltb→le _ _ t);
      }

  -- Every layout that `compute_layout` returns has its regions apart and in order, within a
  -- segment of whole pages of at most 64 GiB, and at least twice as many slots as entities, their
  -- number a power of two.
  pub compute_layout-IsLayout :
      (capacity max_id : ℕ) (l : SegmentLayout)
      → compute_layout hash fields capacity max_id ≡ ok l
      → IsLayout l × SlotsPow2 l
  unfolding compute_layout
  compute_layout-IsLayout capacity max_id l h =
      let made = compute_layout-Computed capacity max_id l h in
      subst (λ d. IsLayout d × SlotsPow2 d) (sym made.layout)
        (derive_layout-IsLayout capacity max_id made.rs made.offsets _ _
          (omega (arith, made.cap_pos)) (omega (arith, made.cap_u32)) (omega (arith, made.id_pos))
          made.id_ceiling (row_size_covers hash fields made.rs made.row_ok).0
          (rw (← made.layout) made.total))
