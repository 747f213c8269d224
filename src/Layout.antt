-- ===== src/Layout.antt =====
-- quorin/layout.py: the regions of a segment, computed from (schema, capacity, max_id_bytes).
-- The numpy arrays that the record also carries are the columns of `assembly_table`.
pub mod Regions
pub mod Tests
use quorin.Base.{ℕ, ◌+◌, ◌*◌, ◌^◌, ◌==◌, List, ltb}
use quorin.Result.{Result, ok, err, value_error, ◌>>=◌, ◌>>◌, raise_if}
use quorin.Align.{align_up, next_pow2}
use quorin.Memory.{Memory, read_u32, write_u32, write_u64, read_u64}
use quorin.Schema.{FeatureField, total_element_count}
use quorin.Schema.Offsets.{OffsetRow, cache_line_size, compute_assembly_table}
use quorin.Schema.Table.{page_size, row_size, compute_row_offset_table}

abbrev pub slot_bytes : ℕ
slot_bytes = 24

abbrev pub max_id_bytes_ceiling : ℕ
max_id_bytes_ceiling = 64 * 1024

abbrev pub max_total_segment_bytes : ℕ
max_total_segment_bytes = 2 ^ 36

abbrev pub metadata_offset : ℕ
metadata_offset = 16

abbrev pub data_region_offset : ℕ
data_region_offset = 64

abbrev pub string_pool_header_bytes : ℕ
string_pool_header_bytes = 8

abbrev pub len_prefix_bytes : ℕ
len_prefix_bytes = 4

pub record SegmentLayout : Type 0 where
  pub capacity : ℕ
  pub slot_capacity : ℕ
  pub max_id_bytes : ℕ
  pub row_size : ℕ
  pub slot_table_offset : ℕ
  pub slot_table_bytes : ℕ
  pub string_pool_offset : ℕ
  pub string_pool_data_offset : ℕ
  pub string_pool_data_bytes : ℕ
  pub feature_rows_offset : ℕ
  pub feature_rows_bytes : ℕ
  pub total_size : ℕ
  pub row_offset_table : List OffsetRow
  pub assembly_table : List OffsetRow
  pub total_element_count : ℕ

-- The offsets and sizes that `compute_layout` derives, for a row size and the two tables.
unfoldable pub derive_layout : ℕ → ℕ → ℕ → List OffsetRow → List OffsetRow → ℕ → SegmentLayout
derive_layout capacity max_id_bytes rs offsets assembly elements =
    let slots = next_pow2 (capacity * 2) in
    let pool = align_up (data_region_offset + slots * slot_bytes) cache_line_size in
    let pool_data = pool + string_pool_header_bytes in
    let pool_bytes = capacity * (len_prefix_bytes + max_id_bytes) in
    let rows = align_up (pool_data + pool_bytes) cache_line_size in
    record {
      capacity = capacity;
      slot_capacity = slots;
      max_id_bytes = max_id_bytes;
      row_size = rs;
      slot_table_offset = data_region_offset;
      slot_table_bytes = slots * slot_bytes;
      string_pool_offset = pool;
      string_pool_data_offset = pool_data;
      string_pool_data_bytes = pool_bytes;
      feature_rows_offset = rows;
      feature_rows_bytes = capacity * rs;
      total_size = align_up (rows + capacity * rs) page_size;
      row_offset_table = offsets;
      assembly_table = assembly;
      total_element_count = elements;
    }

-- `hash` is `_hash_name`.
module _ (hash : List ℕ → ℕ) (fields : List FeatureField) where
  unfoldable pub compute_layout : ℕ → ℕ → Result SegmentLayout
  compute_layout capacity max_id_bytes = do
    raise_if (capacity == 0) value_error
    raise_if (max_id_bytes == 0) value_error
    raise_if (ltb max_id_bytes_ceiling max_id_bytes) value_error
    raise_if (ltb 0xffff_ffff capacity) value_error
    rs ← row_size hash fields
    offsets ← compute_row_offset_table hash fields
    let layout =
        derive_layout capacity max_id_bytes rs offsets (compute_assembly_table hash fields)
          (total_element_count fields)
    raise_if (ltb max_total_segment_bytes layout.total_size) value_error
    ok layout

  -- `layout.total_segment_size`
  unfoldable pub total_segment_size : ℕ → ℕ → Result ℕ
  total_segment_size capacity max_id_bytes = do
    layout ← compute_layout capacity max_id_bytes
    ok layout.total_size

  unfoldable pub compute_layout_from_segment : Memory → Result SegmentLayout
  compute_layout_from_segment buf = do
    let capacity = read_u32 buf 12
    raise_if (capacity == 0) value_error
    let slots = next_pow2 (capacity * 2)
    let pool = align_up (data_region_offset + slots * slot_bytes) cache_line_size
    let max_id_bytes = read_u32 buf pool
    raise_if (max_id_bytes == 0) value_error
    compute_layout capacity max_id_bytes

-- `_read_metadata`
unfoldable pub read_metadata : Memory → ℕ × ℕ
read_metadata buf = (read_u64 buf metadata_offset, read_u64 buf (metadata_offset + 8))

-- `_write_metadata`
unfoldable pub write_metadata : Memory → ℕ → ℕ → Memory
write_metadata buf next_row pool_cursor =
    write_u64 (write_u64 buf metadata_offset next_row) (metadata_offset + 8) pool_cursor

-- `_write_pool_header`
unfoldable pub write_pool_header : Memory → SegmentLayout → Memory
write_pool_header buf layout =
    write_u32 (write_u32 buf layout.string_pool_offset layout.max_id_bytes)
      (layout.string_pool_offset + 4) 0

unfoldable pub initialize_segment_regions : Memory → SegmentLayout → Memory
unfolding write_metadata write_pool_header
initialize_segment_regions buf layout = write_pool_header (write_metadata buf 0 0) layout
