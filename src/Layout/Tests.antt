-- ===== src/Layout/Tests.antt =====
-- A layout for two entities with ids of at most 8 bytes, and the layout theorems at it.
use quorin.Base.{ℕ, ◌%◌, ◌^◌, ◌<◌, ◌≡◌, refl, List, [], ◌∷◌, arith}
use native.Mathlib.Nat.{mod-lt}
use quorin.Result.{ok}
use quorin.Memory.{from_le}
use quorin.Align.{align_up, next_pow2, bit_length}
use quorin.Schema.{
  FeatureField, float32, int64, dtype_code, dtype_byte_size, element_count, byte_count,
  total_element_count,
}
use quorin.Schema.Offsets.{
  OffsetRow, field_byte_offsets, field_row, fill_table, compute_assembly_table,
}
use quorin.Schema.Table.{
  row_size, compute_row_offset_table, compile_schema, sort_table, insert_row, rebase_to_first,
  rebase, min_offset, max_end,
}
use quorin.Layout.{SegmentLayout, derive_layout, compute_layout}
use quorin.Layout.Regions.{IsLayout, SlotsPow2, compute_layout-IsLayout}

-- A stand-in for the digest: the number that the first eight bytes spell.
abbrev pub toy_hash : List ℕ → ℕ
toy_hash b = from_le b % 2 ^ 64

pub toy_hash_u64 : (b : List ℕ) → toy_hash b < 2 ^ 64
toy_hash_u64 b = mod-lt (from_le b) (omega arith)

-- A vector of three floats and a counter
abbrev pub two_fields : List FeatureField
two_fields =
    record { name = b'v' ∷ []; dtype = float32; shape = 3 ∷ [] }
    ∷ record { name = b'n' ∷ []; dtype = int64; shape = [] }
    ∷ []

abbrev pub two_rows : List OffsetRow
two_rows =
    record { name_hash = 110; byte_offset = 64; dtype_code = 4; element_count = 1; byte_count = 8 }
    ∷ record {
      name_hash = 118;
      byte_offset = 0;
      dtype_code = 1;
      element_count = 3;
      byte_count = 12;
    }
    ∷ []

pub two_rows_ok : compute_row_offset_table toy_hash two_fields ≡ ok two_rows
unfolding compute_row_offset_table compile_schema sort_table insert_row fill_table field_row
    field_byte_offsets compute_assembly_table from_le rebase_to_first rebase min_offset max_end
    row_size align_up next_pow2 bit_length dtype_code element_count byte_count dtype_byte_size
    total_element_count derive_layout compute_layout
two_rows_ok = refl

pub row_size_ok : row_size toy_hash two_fields ≡ ok 128
unfolding compute_row_offset_table compile_schema sort_table insert_row fill_table field_row
    field_byte_offsets compute_assembly_table from_le rebase_to_first rebase min_offset max_end
    row_size align_up next_pow2 bit_length dtype_code element_count byte_count dtype_byte_size
    total_element_count derive_layout compute_layout
row_size_ok = refl

abbrev pub small : SegmentLayout
small =
    derive_layout 2 8 128 two_rows (compute_assembly_table toy_hash two_fields)
      (total_element_count two_fields)

pub small_ok : compute_layout toy_hash two_fields 2 8 ≡ ok small
unfolding compute_row_offset_table compile_schema sort_table insert_row fill_table field_row
    field_byte_offsets compute_assembly_table from_le rebase_to_first rebase min_offset max_end
    row_size align_up next_pow2 bit_length dtype_code element_count byte_count dtype_byte_size
    total_element_count derive_layout compute_layout
small_ok = refl

compute_layout-IsLayout_example : IsLayout small × SlotsPow2 small
compute_layout-IsLayout_example = compute_layout-IsLayout toy_hash two_fields 2 8 small small_ok
