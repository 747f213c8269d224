-- ===== src/Assembly/Batch.antt =====
-- quorin/assembly.py: `_assemble_batch_core`, `_assemble_batch_core_parallel` and `assemble_batch`.
-- A two-dimensional array is a function from the index of a row to the row. `prange` runs the
-- rows in any order: the order is a list of indices.
pub mod Rows
pub mod Whole
use quorin.Base.{
  ℕ, zero, suc, ◌+◌, ◌-◌, ◌*◌, Bool, true, false, not, ◌&&◌, ◌||◌, Option, none, some, List, [],
  ◌∷◌, ◌++◌, leb, ◌==◌, bit_and, length, drop, replicate, if◌then◌else◌,
}
use quorin.Result.{Result, ok, err, value_error, ◌>>=◌, ◌>>◌, raise_if}
use quorin.Memory.{Memory, read_u32}
use quorin.Schema.{is_empty}
use quorin.Layout.{SegmentLayout, len_prefix_bytes}
use quorin.Segment.{slot_at, empty, matches, row_offset}
use quorin.Assembly.{assemble_core}

-- One row of the arrays `id_hashes`, `query_ids_padded` and `query_id_lens`
pub record Query : Type 0 where
  pub id_hash : ℕ
  pub padded : ℕ → ℕ
  pub len : ℕ

-- The arrays `out` and `found_mask`
pub record Buffers : Type 0 where
  pub out : ℕ → List ℕ
  pub found_mask : ℕ → Bool

-- The bytes of an id in a row of zeros
unfoldable pub pad_row : List ℕ → ℕ → ℕ
pad_row [] k = 0
pad_row (b ∷ bs) zero = b
pad_row (b ∷ bs) (suc k) = pad_row bs k

-- `for k in range(qlen)`, from `k`, for the bytes that are left
unfoldable pub match_padded : Memory → ℕ → (ℕ → ℕ) → ℕ → ℕ → Bool
match_padded buf a row k zero = true
match_padded buf a row k (suc n) =
    if buf (a + k) == row k then match_padded buf a row (suc k) n else false

-- The probe loop of a query, for the rounds that are left; `none` is the -1 of a miss.
unfoldable pub batch_probe : Memory → SegmentLayout → Query → ℕ → ℕ → Option ℕ
batch_probe buf l q zero idx = none
batch_probe buf l q (suc rounds) idx =
    let slot = slot_at buf l idx in
    let pool_entry = l.string_pool_data_offset + slot.id_offset in
    let rest = batch_probe buf l q rounds (bit_and (idx + 1) (l.slot_capacity - 1)) in
    if slot.flags == empty
    then none
    else if matches slot q.id_hash
    then (if (read_u32 buf pool_entry == q.len)
          && match_padded buf (pool_entry + len_prefix_bytes) q.padded 0 q.len
        then some (row_offset buf l idx)
        else rest)
    else rest

-- The first elements of a row are written, and the others stay.
unfoldable pub overwrite : List ℕ → List ℕ → List ℕ
overwrite vector old = vector ++ drop (length vector) old

-- A write to row `b` of an array
abbrev pub set_row {ℓ} : {A : Type ℓ} → (ℕ → A) → ℕ → A → ℕ → A
set_row rows b a i = if i == b then a else rows i

module _ (cast : ℕ → List ℕ → ℕ) where
  -- MISS and HIT
  unfoldable pub fill_row : Memory → SegmentLayout → Buffers → ℕ → Option ℕ → Buffers
  unfolding overwrite
  fill_row buf l to b none = record {
    out = set_row to.out b (replicate l.total_element_count 0);
    found_mask = set_row to.found_mask b false;
  }
  fill_row buf l to b (some offset) = record {
    out = set_row to.out b (overwrite (assemble_core cast buf offset l.assembly_table) (to.out b));
    found_mask = set_row to.found_mask b true;
  }

  unfoldable pub batch_row : Memory → SegmentLayout → (ℕ → Query) → Buffers → ℕ → Buffers
  batch_row buf l queries to b =
      let q = queries b in
      fill_row buf l to b
        (batch_probe buf l q l.slot_capacity (bit_and q.id_hash (l.slot_capacity - 1)))

  -- The loop over the batch, in the order of a list: `range` and `prange`
  unfoldable pub assemble_rows : Memory → SegmentLayout → (ℕ → Query) → Buffers → List ℕ → Buffers
  assemble_rows buf l queries to [] = to
  assemble_rows buf l queries to (b ∷ bs) =
      assemble_rows buf l queries (batch_row buf l queries to b) bs

-- `range(n)`, from `b`
unfoldable pub range_from : ℕ → ℕ → List ℕ
range_from b zero = []
range_from b (suc n) = b ∷ range_from (suc b) n

unfoldable pub any_empty : List (List ℕ) → Bool
any_empty [] = false
any_empty (id ∷ ids) = is_empty id || any_empty ids

-- An array that the caller gave, with whether its shape, dtype and flags fit, or a new one
unfoldable pub take_array {ℓ} : {A : Type ℓ} → Option (Bool × A) → A → Result A
take_array none blank = ok blank
take_array (some (fits, a)) blank = raise_if (not fits) value_error >> ok a

module _ (hash : List ℕ → ℕ) where
  -- Row `b` of the prepared arrays; the ids behind the end are none.
  unfoldable pub query_at : List (List ℕ) → ℕ → Query
  query_at [] b = record { id_hash = 0; padded = λ k. 0; len = 0 }
  query_at (id ∷ ids) zero = record { id_hash = hash id; padded = pad_row id; len = length id }
  query_at (id ∷ ids) (suc b) = query_at ids b

-- `blank` is what `np.empty` holds, and `order` the order in which `prange` takes the rows.
module _ (cast : ℕ → List ℕ → ℕ) (hash : List ℕ → ℕ) (parallel_threshold : ℕ) (blank : Buffers)
    (order : List ℕ) where
  unfoldable pub run_kernel : Memory → SegmentLayout → List (List ℕ) → Buffers → Buffers
  run_kernel buf l ids to =
      assemble_rows cast buf l (query_at hash ids) to
        (if leb parallel_threshold (length ids) then order else range_from 0 (length ids))

  unfoldable pub assemble_batch :
      Memory
      → SegmentLayout
      → List (List ℕ)
      → Option (Bool × (ℕ → List ℕ))
      → Option (Bool × (ℕ → Bool))
      → Result Buffers
  assemble_batch buf l ids out found_mask = do
    rows ← take_array out blank.out
    marks ← take_array found_mask blank.found_mask
    let to : Buffers = record { out = rows; found_mask = marks }
    raise_if (any_empty ids) value_error
    ok (if length ids == 0 then to else run_kernel buf l ids to)
