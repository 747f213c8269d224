-- ===== src/Schema/Offsets.antt =====
-- quorin/schema.py: `_field_byte_offsets` and the rows of an offset table.
pub mod Geometry
use quorin.Base.{ℕ, ◌+◌, List, [], ◌∷◌}
use quorin.Align.{align_up}
use quorin.Schema.{FeatureField, dtype_code, element_count, byte_count}

abbrev pub cache_line_size : ℕ
cache_line_size = 64

unfoldable pub field_byte_offsets : List FeatureField → ℕ → List ℕ
field_byte_offsets [] cursor = []
field_byte_offsets (f ∷ fs) cursor =
    align_up cursor cache_line_size
    ∷ field_byte_offsets fs (align_up cursor cache_line_size + byte_count f)

-- One record of `OFFSET_TABLE_DTYPE`
pub record OffsetRow : Type 0 where
  pub name_hash : ℕ
  pub byte_offset : ℕ
  pub dtype_code : ℕ
  pub element_count : ℕ
  pub byte_count : ℕ

-- `hash` is `_hash_name`, the 8-byte BLAKE2b digest of hashlib.
module _ (hash : List ℕ → ℕ) where
  unfoldable pub field_row : FeatureField → ℕ → OffsetRow
  field_row f offset = record {
    name_hash = hash f.name;
    byte_offset = offset;
    dtype_code = dtype_code f.dtype;
    element_count = element_count f;
    byte_count = byte_count f;
  }

  -- The loop `for i, f in enumerate(field_list): table[i] = ...`
  unfoldable pub fill_table : List FeatureField → List ℕ → List OffsetRow
  unfolding field_row
  fill_table [] offsets = []
  fill_table (f ∷ fs) [] = []
  fill_table (f ∷ fs) (o ∷ os) = field_row f o ∷ fill_table fs os

  unfoldable pub compute_assembly_table : List FeatureField → List OffsetRow
  compute_assembly_table fields = fill_table fields (field_byte_offsets fields 0)
