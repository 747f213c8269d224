-- ===== src/Schema.antt =====
-- quorin/schema.py: dtypes, fields, schema classes and their validation. The offset tables that
-- are compiled from a schema are in the modules below. A `str` is its UTF-8 bytes.
pub mod Name
pub mod Offsets
pub mod Table
mod Tests
use mathlib.Core.List.{foldl}
use quorin.Base.{
  ℕ, zero, suc, ◌*◌, ◌+◌, ◌^◌, Bool, true, false, not, ◌&&◌, ◌||◌, List, [], ◌∷◌, map, ltb, ◌==◌,
  bytes_eq,
}
use quorin.Result.{Result, ok, err, value_error, ◌>>=◌, ◌>>◌, raise_if}

pub data DType : Type 0 where
  float32 float64 int32 int64 uint8 : DType

-- The wire-stable integer values of the enum.
unfoldable pub dtype_code : DType → ℕ
dtype_code float32 = 1
dtype_code float64 = 2
dtype_code int32 = 3
dtype_code int64 = 4
dtype_code uint8 = 5

-- `_DTYPE_BYTE_SIZE`
unfoldable pub dtype_byte_size : DType → ℕ
dtype_byte_size float32 = 4
dtype_byte_size float64 = 8
dtype_byte_size int32 = 4
dtype_byte_size int64 = 8
dtype_byte_size uint8 = 1

abbrev pub max_element_count : ℕ
max_element_count = 2 ^ 24

abbrev pub max_field_bytes : ℕ
max_field_bytes = 2 ^ 28

pub record FeatureField : Type 0 where
  pub name : List ℕ
  pub dtype : DType
  pub shape : List ℕ

unfoldable pub element_count : FeatureField → ℕ
element_count f = foldl (λ count d. count * d) 1 f.shape

unfoldable pub byte_count : FeatureField → ℕ
unfolding element_count
byte_count f = element_count f * dtype_byte_size f.dtype

-- `any(d <= 0 for d in shape)`; a dimension that is not positive is 0 here
abbrev pub has_zero : List ℕ → Bool
has_zero [] = false
has_zero (d ∷ ds) = (d == 0) || has_zero ds

abbrev pub is_empty : List ℕ → Bool
is_empty [] = true
is_empty (c ∷ cs) = false

-- `FeatureField.__post_init__`, after its `isinstance` tests
unfoldable pub post_init : FeatureField → Result FeatureField
post_init f = do
  raise_if (is_empty f.name) value_error
  raise_if (has_zero f.shape) value_error
  raise_if (ltb max_element_count (element_count f)) value_error
  raise_if (ltb max_field_bytes (byte_count f)) value_error
  ok f

pub record FeatureSchema : Type 0 where
  pub name : List ℕ
  pub version : ℕ
  pub fields : List FeatureField

abbrev pub contains_name : List ℕ → List FeatureField → Bool
contains_name n [] = false
contains_name n (f ∷ fs) = bytes_eq n f.name || contains_name n fs

-- `len(set(names)) != len(names)`
abbrev pub has_duplicate_name : List FeatureField → Bool
has_duplicate_name [] = false
has_duplicate_name (f ∷ fs) = contains_name f.name fs || has_duplicate_name fs

abbrev pub no_fields : List FeatureField → Bool
no_fields [] = true
no_fields (f ∷ fs) = false

-- `sum(f.element_count for f in schema.fields)`
unfoldable pub total_element_count : List FeatureField → ℕ
total_element_count [] = 0
total_element_count (f ∷ fs) = element_count f + total_element_count fs
