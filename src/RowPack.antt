-- ===== src/RowPack.antt =====
-- quorin/_internal/row_pack.py: `_build_plan` and `pack_row_from_list`. A dtype is its code. The
-- conversions of a value, struct's and numpy's, are parameters; the cache of the plans is left out.
pub mod Plan
pub mod Rows
pub mod Struct
pub mod Slots
pub mod Filling
pub mod Whole
mod Tests
use mathlib.Core.List.{flatten}
use quorin.Base.{
  ℕ, zero, suc, ◌+◌, ◌-◌, max, Bool, true, false, not, Option, none, some, List, [], ◌∷◌, ◌++◌, map,
  ltb, ◌==◌, length, get_elem?, replicate, if◌then◌else◌,
}
use quorin.Result.{
  Result, ok, err, value_error, key_error, index_error, struct_error, ◌>>=◌, ◌>>◌, raise_if,
}
use quorin.Memory.{Memory, write_bytes}
use quorin.Schema.{FeatureField, is_empty}
use quorin.Schema.Offsets.{OffsetRow}
use quorin.Schema.Table.{compute_row_offset_table, row_size}
use quorin.Assembly.{item_size}

-- One tuple of `rows`
pub record PlanRow : Type 0 where
  pub byte_off : ℕ
  pub byte_cnt : ℕ
  pub dtype : ℕ
  pub elem_cnt : ℕ
  pub is_true_scalar : Bool
  pub value_idx : ℕ

pub record ShapedSlot : Type 0 where
  pub byte_offset : ℕ
  pub dtype : ℕ
  pub element_count : ℕ
  pub byte_count : ℕ

-- A part of the format: `Nx`, or the code of a dtype
pub data Part : Type 0 where
  pad : ℕ → Part
  code : ℕ → Part

-- What the loop of `_build_plan` collects
pub record Emitted : Type 0 where
  pub fmt_parts : List Part
  pub scalar_indices : List ℕ
  pub shaped_slots : List (ℕ × ShapedSlot)

pub record PackPlan : Type 0 where
  pub emitted : Emitted
  pub expected_len : ℕ
  pub row_size : ℕ

-- `table.size`
abbrev pub size_of : List OffsetRow → ℕ
size_of = length

-- `shape_by_hash`; of two names with one hash, the dict has the later.
unfoldable pub shape_by_hash : (List ℕ → ℕ) → List FeatureField → ℕ → Option (List ℕ)
shape_by_hash hash [] h = none
shape_by_hash hash (f ∷ fs) h = elim (shape_by_hash hash fs h) [
  | some shape ↦ some shape
  | none ↦ if hash f.name == h then some f.shape else none
]

unfoldable pub shape_at : Option (List ℕ) → Result (List ℕ)
shape_at none = err key_error
shape_at (some shape) = ok shape

abbrev pub plan_row : OffsetRow → List ℕ → ℕ → PlanRow
plan_row r shape i = record {
  byte_off = r.byte_offset;
  byte_cnt = r.byte_count;
  dtype = r.dtype_code;
  elem_cnt = r.element_count;
  is_true_scalar = is_empty shape;
  value_idx = i;
}

-- The tuples of `rows` from an index on, before they are sorted
unfoldable pub plan_rows :
    (List ℕ → ℕ) → List FeatureField → ℕ → List OffsetRow → Result (List PlanRow)
plan_rows hash fields i [] = ok []
plan_rows hash fields i (r ∷ t) = do
  shape ← shape_at (shape_by_hash hash fields r.name_hash)
  rest ← plan_rows hash fields (suc i) t
  ok (plan_row r shape i ∷ rest)

-- `sorted(..., key=lambda r: r[0])`
unfoldable pub insert_plan_row : PlanRow → List PlanRow → List PlanRow
insert_plan_row r [] = r ∷ []
insert_plan_row r (s ∷ t) = if ltb s.byte_off r.byte_off then s ∷ insert_plan_row r t else r ∷ s ∷ t

unfoldable pub sort_plan_rows : List PlanRow → List PlanRow
unfolding insert_plan_row
sort_plan_rows [] = []
sort_plan_rows (r ∷ t) = insert_plan_row r (sort_plan_rows t)

abbrev pub pad_gap : ℕ → ℕ → List Part → List Part
pad_gap cursor byte_off parts =
    if ltb cursor byte_off then pad (byte_off - cursor) ∷ parts else parts

-- How far a round moves the cursor
unfoldable pub width : PlanRow → Bool → ℕ
width r true = item_size r.dtype
width r false = r.byte_cnt

unfoldable pub add_row : ℕ → PlanRow → Bool → Emitted → Emitted
add_row cursor r true rest = record {
  fmt_parts = pad_gap cursor r.byte_off (code r.dtype ∷ rest.fmt_parts);
  scalar_indices = r.value_idx ∷ rest.scalar_indices;
  shaped_slots = rest.shaped_slots;
}
add_row cursor r false rest = record {
  fmt_parts = pad_gap cursor r.byte_off (pad r.byte_cnt ∷ rest.fmt_parts);
  scalar_indices = rest.scalar_indices;
  shaped_slots =
      (
        r.value_idx,
        record {
          byte_offset = r.byte_off;
          dtype = r.dtype;
          element_count = r.elem_cnt;
          byte_count = r.byte_cnt;
        },
      )
      ∷ rest.shaped_slots;
}

-- The loop over the sorted rows
unfoldable pub emit : ℕ → List PlanRow → Emitted
unfolding width
emit cursor [] = record { fmt_parts = []; scalar_indices = []; shaped_slots = [] }
emit cursor (r ∷ rs) =
    let rest = emit (max cursor r.byte_off + width r r.is_true_scalar) rs in
    add_row cursor r r.is_true_scalar rest

unfoldable pub build_plan : (List ℕ → ℕ) → List FeatureField → Result PackPlan
build_plan hash fields = do
  table ← compute_row_offset_table hash fields
  rows ← plan_rows hash fields 0 table
  size ← row_size hash fields
  ok (record {
    emitted = emit 0 (sort_plan_rows rows);
    expected_len = size_of table;
    row_size = size;
  })

-- What struct writes for a value, and the elements of `np.asarray(v, dtype).reshape(-1)`
module _ (Value : Type 0) (struct_bytes : ℕ → Value → Result (List ℕ))
    (asarray : ℕ → Value → Result (List (List ℕ))) where
  -- `pack_into`, from an offset on; a pad writes zeros.
  unfoldable pub pack_into : Memory → ℕ → List Part → List (Option Value) → Result Memory
  pack_into m a [] [] = ok m
  pack_into m a [] (v ∷ vs) = err struct_error
  pack_into m a (pad n ∷ ps) vs = pack_into (write_bytes m a (replicate n 0)) (a + n) ps vs
  pack_into m a (code d ∷ ps) [] = err struct_error
  pack_into m a (code d ∷ ps) (none ∷ vs) = err index_error
  pack_into m a (code d ∷ ps) (some v ∷ vs) = do
    bytes ← struct_bytes d v
    pack_into (write_bytes m a bytes) (a + item_size d) ps vs

  -- `scalar_struct` is None where there is no scalar.
  unfoldable pub pack_scalars : List Value → Memory → List Part → List ℕ → Result Memory
  pack_scalars values m parts [] = ok m
  pack_scalars values m parts (i ∷ is) = pack_into m 0 parts (map (get_elem? values) (i ∷ is))

  unfoldable pub flat_bytes : ℕ → ℕ → Value → Result (List ℕ)
  flat_bytes d n v = do
    src ← asarray d v
    raise_if (not (length src == n)) value_error
    ok (flatten src)

  unfoldable pub value_at : Option Value → Result Value
  value_at none = err index_error
  value_at (some v) = ok v

  -- The loop over `shaped_slots`
  unfoldable pub fill_slots : List Value → Memory → List (ℕ × ShapedSlot) → Result Memory
  fill_slots values m [] = ok m
  fill_slots values m ((idx, slot) ∷ rest) = do
    v ← value_at (get_elem? values idx)
    src ← flat_bytes slot.dtype slot.element_count v
    fill_slots values (write_bytes m slot.byte_offset src) rest

  unfoldable pub pack_row_from_list :
      (List ℕ → ℕ) → List FeatureField → List Value → Memory → ℕ → Result Memory
  pack_row_from_list hash fields values out out_len = do
    plan ← build_plan hash fields
    raise_if (not (length values == plan.expected_len)) value_error
    raise_if (not (out_len == plan.row_size)) value_error
    m ← pack_scalars values out plan.emitted.fmt_parts plan.emitted.scalar_indices
    fill_slots values m plan.emitted.shaped_slots
