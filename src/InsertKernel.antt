-- ===== src/InsertKernel.antt =====
-- quorin/_internal/insert_kernel.py: `_insert_many_core`, `_prepare_insert_columns` and `insert_many`.
-- An Arrow table is its number of rows, the buffers of its column of ids, and for each field of the
-- schema the bytes of each row that `_extract_field_to_numpy` gets out of pyarrow. `hash` is
-- `hash_entity_id_bytes`.
pub mod Columns
pub mod Row
pub mod Load
pub mod Loaded
pub mod Many
mod Tests
use quorin.Base.{
  ℕ, zero, suc, ◌+◌, ◌-◌, ◌*◌, Bool, not, ◌||◌, Option, none, some, List, [], ◌∷◌, ◌++◌, ltb, max,
  ◌==◌, bit_and, length, if◌then◌else◌,
}
use quorin.Result.{
  Result, ok, err, value_error, capacity_exceeded, string_pool_exhausted, ◌>>◌, ◌>>=◌, raise_if,
}
use quorin.Memory.{Memory, read_bytes, le_bytes}
use quorin.Schema.Offsets.{OffsetRow}
use quorin.Layout.{SegmentLayout, len_prefix_bytes, read_metadata, write_metadata}
use quorin.Segment.{slot_at, empty, occupied, slot_base, Write, apply_writes}

pub record Table : Type 0 where
  pub num_rows : ℕ
  -- `entity_id` and every field of the schema are among the columns.
  pub has_entity_id : Bool
  pub has_fields : Bool
  -- The buffers of the `StringArray`: the int32 offsets, one more than rows, and the bytes
  pub id_byte_offsets : ℕ → ℕ
  pub encoded_ids_concat : Memory
  -- For each field, in the order of the declaration, the bytes of row `i`
  pub columns : List (ℕ → List ℕ)

-- What the kernel knows of a field: its extent in a row, and where its column starts in `field_data`
pub record KernelField : Type 0 where
  pub byte_offset : ℕ
  pub byte_count : ℕ
  pub data_start : ℕ

-- `field_byte_offsets_in_row`, `field_byte_counts` and `field_data_starts`, the running sum of
-- `field_byte_counts * n`
unfoldable pub kernel_fields : ℕ → ℕ → List OffsetRow → List KernelField
kernel_fields n start [] = []
kernel_fields n start (r ∷ t) =
    record { byte_offset = r.byte_offset; byte_count = r.byte_count; data_start = start }
    ∷ kernel_fields n (start + r.byte_count * n) t

-- `np_arr.reshape(-1)` at the start of the column, row after row, from row `i`
unfoldable pub column_writes : ℕ → ℕ → (ℕ → List ℕ) → ℕ → ℕ → List Write
column_writes start cnt column i zero = []
column_writes start cnt column i (suc n) =
    (start + i * cnt, column i) ∷ column_writes start cnt column (suc i) n

-- `field_data[start:end] = np_arr.reshape(-1)` for each field
unfoldable pub data_writes : ℕ → List KernelField → List (ℕ → List ℕ) → List Write
data_writes n [] columns = []
data_writes n (f ∷ fs) [] = []
data_writes n (f ∷ fs) (c ∷ cs) =
    column_writes f.data_start f.byte_count c 0 n ++ data_writes n fs cs

-- The bytes of the id in row `i`
unfoldable pub id_of : Table → ℕ → List ℕ
id_of t i =
    read_bytes t.encoded_ids_concat (t.id_byte_offsets i)
      (t.id_byte_offsets (i + 1) - t.id_byte_offsets i)

-- The first empty slot, for the rounds that are left; `none` is `found = False`.
unfoldable pub find_vacant : Memory → SegmentLayout → ℕ → ℕ → Option ℕ
find_vacant buf l zero idx = none
find_vacant buf l (suc rounds) idx =
    let rest = find_vacant buf l rounds (bit_and (idx + 1) (l.slot_capacity - 1)) in
    if (slot_at buf l idx).flags == empty then some idx else rest

-- `for f in range(n_fields)`: the fields of row `i` out of `field_data`, into the row at `row_abs`
unfoldable pub scatter_writes : Memory → ℕ → ℕ → List KernelField → List Write
scatter_writes field_data row_abs i [] = []
scatter_writes field_data row_abs i (f ∷ fs) =
    (row_abs + f.byte_offset, read_bytes field_data (f.data_start + i * f.byte_count) f.byte_count)
    ∷ scatter_writes field_data row_abs i fs

-- The slot record, with the flags last
unfoldable pub slot_writes : SegmentLayout → ℕ → ℕ → ℕ → ℕ → List Write
slot_writes l idx h id_offset i =
    (slot_base l idx, le_bytes 8 h)
    ∷ (slot_base l idx + 8, le_bytes 8 id_offset)
    ∷ (slot_base l idx + 20, le_bytes 4 i)
    ∷ (slot_base l idx + 16, le_bytes 4 occupied)
    ∷ []

-- The writes of one round of the outer loop, in program order
unfoldable pub row_writes :
    SegmentLayout → Memory → List KernelField → ℕ → ℕ → List ℕ → ℕ → ℕ → List Write
row_writes l field_data fields idx h encoded i pool_cursor =
    let pool_abs = l.string_pool_data_offset + pool_cursor in
    (pool_abs, le_bytes 4 (length encoded))
    ∷ (pool_abs + len_prefix_bytes, encoded)
    ∷ (scatter_writes field_data (l.feature_rows_offset + i * l.row_size) i fields
        ++ slot_writes l idx h pool_cursor i)

-- What the kernel returns: the segment with the final `pool_cursor`, or, for `-(i + 1)`, the row `i`
-- for which no slot was left
pub data Bulk : Type 0 where
  inserted : Memory → ℕ → Bulk
  no_slot : ℕ → Bulk

-- `int(np.max(np.diff(id_byte_offsets)))`
unfoldable pub max_id_len : Table → ℕ → ℕ
max_id_len t zero = 0
max_id_len t (suc n) = max (t.id_byte_offsets (n + 1) - t.id_byte_offsets n) (max_id_len t n)

unfoldable pub finish : Memory → ℕ → Bulk → Result (ℕ × Memory)
finish buf n (no_slot i) = err capacity_exceeded
finish buf n (inserted buf' pool_cursor) = ok (n, write_metadata buf' n pool_cursor)

module _ (hash : List ℕ → ℕ) where
  -- `_insert_many_core` from row `i`, for the rows that are left
  unfoldable pub insert_many_core :
      SegmentLayout → Memory → List KernelField → Table → ℕ → ℕ → Memory → ℕ → Bulk
  insert_many_core l field_data fields t zero i buf pool_cursor = inserted buf pool_cursor
  insert_many_core l field_data fields t (suc n) i buf pool_cursor =
      let encoded = id_of t i in
      elim (find_vacant buf l l.slot_capacity (bit_and (hash encoded) (l.slot_capacity - 1))) [
        | none ↦ no_slot i
        | some idx ↦
            insert_many_core l field_data fields t n (suc i)
              (apply_writes buf
                (row_writes l field_data fields idx (hash encoded) encoded i pool_cursor))
              (pool_cursor + (len_prefix_bytes + length encoded))
      ]

  -- The body of `insert_many` for a table that has rows; `blank` is what `np.empty` holds.
  unfoldable pub insert_rows : Memory → Memory → SegmentLayout → Table → Result (ℕ × Memory)
  insert_rows blank buf l t = do
    let n = t.num_rows
    raise_if (not ((read_metadata buf).0 == 0) || not ((read_metadata buf).1 == 0)) value_error
    raise_if (ltb l.capacity n) capacity_exceeded
    raise_if (not t.has_entity_id) value_error
    raise_if (not t.has_fields) value_error
    let fields = kernel_fields n 0 l.assembly_table
    let field_data = apply_writes blank (data_writes n fields t.columns)
    raise_if (ltb l.max_id_bytes (max_id_len t n)) string_pool_exhausted
    raise_if (ltb l.string_pool_data_bytes (t.id_byte_offsets n + n * len_prefix_bytes))
        string_pool_exhausted
    finish buf n (insert_many_core l field_data fields t n 0 buf 0)

  unfoldable pub insert_many : Memory → Memory → SegmentLayout → Table → Result (ℕ × Memory)
  insert_many blank buf l t = if t.num_rows == 0 then ok (0, buf) else insert_rows blank buf l t
