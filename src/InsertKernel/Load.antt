-- ===== src/InsertKernel/Load.antt =====
-- The rows of a table in a new segment.
use quorin.Base.{
  ℕ, ◌+◌, ◌-◌, ◌*◌, ◌^◌, ◌≤◌, ◌<◌, ◌≡◌, sym, ◌∙◌, ap, ap₂, subst, arith, none, some, List, [], ◌∷◌,
  length, All, ◌⊎◌, inr, bit_and,
}
use quorin.Result.{ok}
use quorin.Memory.{Memory, read_bytes, write_bytes}
use quorin.Memory.Frame.{length-read_bytes}
use quorin.Memory.Order.{read_bytes-part}
use quorin.Schema.Offsets.{OffsetRow}
use quorin.Schema.Offsets.Geometry.{Packed}
use quorin.Schema.Table.Rows.{EndsBy}
use quorin.Layout.{SegmentLayout, read_metadata, write_metadata}
use quorin.Segment.{apply_writes, lookup, insert_writes}
use quorin.Segment.Slots.{IsSegment, probed, next_row, pool_cursor}
use quorin.Segment.Probing.{probe-absent}
use quorin.Segment.View.{none-Absent}
use quorin.Segment.Insert.{apply_writes-first}
use quorin.Segment.Insert.New.{Inserted, made-Inserted}
use quorin.Segment.Writes.{apply_writes-cons, Inside}
use quorin.InsertKernel.{KernelField, kernel_fields, find_vacant, scatter_writes, row_writes}
use quorin.InsertKernel.Columns.{ReadsColumns}
use quorin.InsertKernel.Row.{
  row_abs, row_of, flags-write_metadata, find_vacant_lem, round-insert_writes,
}

-- The row at an address holds, field by field, the bytes of row `i` of the columns.
abbrev pub HasColumns : Memory → ℕ → ℕ → List OffsetRow → List (ℕ → List ℕ) → Type 0
HasColumns m row i [] cs = Unit
HasColumns m row i (r ∷ t) [] = ⊥
HasColumns m row i (r ∷ t) (c ∷ cs) =
    (read_bytes m (row + r.byte_offset) r.byte_count ≡ c i) × HasColumns m row i t cs

pub HasColumns-part :
    (m n : Memory) (row size i : ℕ) (t : List OffsetRow) (cs : List (ℕ → List ℕ))
    → read_bytes m row size ≡ read_bytes n row size
    → EndsBy size t
    → HasColumns m row i t cs
    → HasColumns n row i t cs
HasColumns-part m n row size i [] cs e ends h = tt
HasColumns-part m n row size i (r ∷ t) [] e ends h = h
HasColumns-part m n row size i (r ∷ t) (c ∷ cs) e ends h = (
  sym (
        read_bytes-part m n row size (row + r.byte_offset) r.byte_count e (omega arith)
          (omega arith))
      ∙ h.0,
  HasColumns-part m n row size i t cs e ends.1 h.1,
)

-- The later fields are apart from what lies before them.
scatter-above :
    (field_data : Memory) (row i n start from : ℕ) (t : List OffsetRow) (b j : ℕ)
    → Packed from t
    → b + j ≤ row + from
    → All
        (λ w. (w.0 + length w.1 ≤ b) ⊎ (b + j ≤ w.0))
        (scatter_writes field_data row i (kernel_fields n start t))
unfolding scatter_writes kernel_fields
scatter-above field_data row i n start from [] b j packed h = tt
scatter-above field_data row i n start from (r ∷ t) b j packed h = (
  inr (omega arith),
  scatter-above field_data row i n (start + r.byte_count * n) (r.byte_offset + r.byte_count) t b j
      packed.2 (omega arith),
)

pub scatter-HasColumns :
    (field_data m : Memory) (row i n start from : ℕ) (t : List OffsetRow) (cs : List (ℕ → List ℕ))
    → Packed from t
    → ReadsColumns field_data i (kernel_fields n start t) cs
    → HasColumns
        (apply_writes m (scatter_writes field_data row i (kernel_fields n start t)))
        row
        i
        t
        cs
unfolding scatter_writes kernel_fields
scatter-HasColumns field_data m row i n start from [] cs packed reads = tt
scatter-HasColumns field_data m row i n start from (r ∷ t) [] packed reads = reads
scatter-HasColumns field_data m row i n start from (r ∷ t) (c ∷ cs) packed reads =
    let bytes = read_bytes field_data (start + i * r.byte_count) r.byte_count in
    let len = length-read_bytes field_data (start + i * r.byte_count) r.byte_count in
    let next = start + r.byte_count * n in
    let later = scatter_writes field_data row i (kernel_fields n next t) in
    let end = r.byte_offset + r.byte_count in
    (
      apply_writes-first (row + r.byte_offset) bytes later m r.byte_count len (
            scatter-above field_data row i n next end t (row + r.byte_offset) r.byte_count packed.2
              (omega arith))
          ∙ reads.0,
      subst (λ b. HasColumns b row i t cs)
          (sym (apply_writes-cons m (row + r.byte_offset) bytes later))
          (scatter-HasColumns field_data (write_bytes m (row + r.byte_offset) bytes) row i n next
            end t cs packed.2 reads.1),
    )

-- A round of the kernel, beside the insert of the same entity with the cursors in their place.
module _ (hash : List ℕ → ℕ) (hash_u64 : (b : List ℕ) → hash b < 2 ^ 64) (l : SegmentLayout)
    (buf : Memory) (i cursor : ℕ) where
  module _ (inv : IsSegment hash (write_metadata buf i cursor) l)
      (cursors : read_metadata (write_metadata buf i cursor) ≡ (i, cursor)) (c : ℕ) (cs : List ℕ)
      (miss : lookup hash (write_metadata buf i cursor) l (c ∷ cs) ≡ ok none)
      (short : length (c ∷ cs) ≤ l.max_id_bytes) (row_left : i < l.capacity)
      (fits : cursor + (4 + length (c ∷ cs)) ≤ l.string_pool_data_bytes) (field_data : Memory)
      (fields : List KernelField)
      (inside : Inside
        (l.feature_rows_offset + i * l.row_size)
        l.row_size
        (scatter_writes field_data (l.feature_rows_offset + i * l.row_size) i fields)) where
    abbrev entity : List ℕ
    entity = c ∷ cs

    abbrev after : ℕ → Memory
    after idx =
        write_metadata
          (apply_writes buf (row_writes l field_data fields idx (hash entity) entity i cursor))
          (i + 1) (cursor + (4 + length entity))

    next_e : next_row (write_metadata buf i cursor) ≡ i
    next_e = ap (λ (t : ℕ × ℕ). t.0) cursors

    cursor_e : pool_cursor (write_metadata buf i cursor) ≡ cursor
    cursor_e = ap (λ (t : ℕ × ℕ). t.1) cursors

    pub round-Inserted :
        (idx : ℕ) × (find_vacant buf l l.slot_capacity (bit_and (hash entity) (l.slot_capacity - 1))
          ≡ some idx)
        × Inserted hash l
            (write_metadata buf i cursor)
            entity
            (row_of l inv.layout field_data fields buf i cursor entity)
            (after idx)
    round-Inserted =
        let m = write_metadata buf i cursor in
        let absent = none-Absent hash inv c cs miss in
        let (v, run, first) = probe-absent hash inv entity absent in
        let row = row_of l inv.layout field_data fields buf i cursor entity in
        let flags = flags-write_metadata buf l inv.layout.slot_table i cursor in
        let idx = probed l (hash entity) v in
        let made =
          made-Inserted hash hash_u64 inv c cs row absent
            (length-read_bytes _ (row_abs l inv.layout field_data fields buf i cursor entity)
              l.row_size)
            short v first (omega (arith, next_e)) (omega (arith, cursor_e)) in
        let same =
          ap₂ (λ x y. apply_writes m (insert_writes l idx (hash entity) entity row x y)) next_e
            cursor_e
          ∙ round-insert_writes l inv.layout field_data fields buf i cursor entity idx (hash entity)
              inside in
        (
          idx,
          find_vacant_lem l inv.pow buf (hash entity) v (sym (flags idx) ∙ first.vacant_here)
              (λ k lt e. first.filled_before k lt (flags (probed l (hash entity) k) ∙ e))
              first.near,
          subst (λ b. Inserted hash l m entity row b) same made,
        )
