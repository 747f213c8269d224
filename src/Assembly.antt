-- ===== src/Assembly.antt =====
-- quorin/assembly.py: `_assemble_core` and `assemble`. The cast of the bytes of one element to float32 is
-- numpy's, and is a parameter; a float32 is the number of its bit pattern.
pub mod Vector
pub mod Batch
mod Tests
use quorin.Base.{
  ℕ, zero, suc, ◌+◌, Bool, true, false, not, Option, none, some, List, [], ◌∷◌, ◌++◌, ◌==◌,
  if◌then◌else◌,
}
use quorin.Result.{Result, ok, err, value_error, entity_not_found, ◌>>=◌, ◌>>◌, raise_if}
use quorin.Memory.{Memory, read_bytes}
use quorin.Schema.Offsets.{OffsetRow}
use quorin.Layout.{SegmentLayout}
use quorin.LookupKernel.{lookup_jit}

-- The item size of the view that the branch of a dtype code takes
unfoldable pub item_size : ℕ → ℕ
item_size code =
    if code == 1
    then 4
    else if code == 2
    then 8
    else if code == 3
    then 4
    else if code == 4
    then 8
    else 1

-- What an optional `out` comes to: none was given, or one that fits or does not
abbrev pub Out : Type 0
Out = Option Bool

unfoldable pub check_out : Out → Result (Unit {0})
check_out none = ok tt
check_out (some fits) = raise_if (not fits) value_error

module _ (cast : ℕ → List ℕ → ℕ) where
  -- `for j in range(ec): out[cursor + j] = np.float32(view[j])`, with the view at `start`
  unfoldable pub cast_elements : Memory → ℕ → ℕ → ℕ → List ℕ
  unfolding item_size
  cast_elements buf code start zero = []
  cast_elements buf code start (suc n) =
      cast code (read_bytes buf start (item_size code))
      ∷ cast_elements buf code (start + item_size code) n

  unfoldable pub assemble_core : Memory → ℕ → List OffsetRow → List ℕ
  unfolding cast_elements
  assemble_core buf row_offset [] = []
  assemble_core buf row_offset (r ∷ t) =
      cast_elements buf r.dtype_code (row_offset + r.byte_offset) r.element_count
      ++ assemble_core buf row_offset t

  -- The row that was found, or EntityNotFoundError
  unfoldable pub assemble_at : Memory → SegmentLayout → Out → Option ℕ → Result (List ℕ)
  assemble_at buf l out none = err entity_not_found
  assemble_at buf l out (some row_offset) = do
    check_out out
    ok (assemble_core buf row_offset l.assembly_table)

  module _ (hash : List ℕ → ℕ) where
    unfoldable pub assemble : Memory → SegmentLayout → List ℕ → Out → Result (List ℕ)
    assemble buf l id out = do found ← lookup_jit hash buf l id; assemble_at buf l out found
