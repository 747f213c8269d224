-- ===== src/Assembly/Tests.antt =====
-- The vector of a row of the segment with one entity.
use quorin.Base.{
  ℕ, ◌<◌, ◌≡◌, refl, none, contains, get_elem?, replicate, below_suc, ◌⊎◌, arith, some, true, false,
  List, [], ◌∷◌,
}
use quorin.Result.{ok, err, entity_not_found, ◌>>◌}
use quorin.Memory.{Memory, write_bytes, from_le}
use quorin.Schema.{total_element_count, element_count}
use quorin.Layout.{derive_layout}
use quorin.Schema.Offsets.{compute_assembly_table}
use quorin.Layout.Tests.{toy_hash, two_fields, small}
use quorin.Segment.{row_offset}
use quorin.Segment.Probing.{Absent}
use quorin.Segment.View.{Holds}
use quorin.Segment.Tests.{user, other, one_user, one_user-IsSegment}
use quorin.Assembly.{check_out, assemble_core, assemble}
use quorin.Assembly.Batch.{Buffers, any_empty, take_array, assemble_batch}
use quorin.Assembly.Batch.Rows.{RowIs}
use quorin.Assembly.Batch.Whole.{assemble_batch_lem}
use quorin.Assembly.Vector.{assemble_lem}

-- A stand-in for the cast
abbrev toy_cast : ℕ → List ℕ → ℕ
toy_cast code bytes = from_le bytes

-- The same segment with another first byte
abbrev marked : Memory
marked = write_bytes one_user 0 (9 ∷ [])

assemble_lem_example :
    ((j : ℕ) × Holds one_user small user j
      × (assemble toy_cast toy_hash one_user small user (some true) ≡ (
          check_out (some true)
          >> ok (
              assemble_core toy_cast one_user (row_offset one_user small j) small.assembly_table))))
    ⊎ (Absent toy_hash one_user-IsSegment user
        × (assemble toy_cast toy_hash one_user small user (some true) ≡ err entity_not_found))
assemble_lem_example =
    assemble_lem toy_cast toy_hash one_user-IsSegment b'u' (b'1' ∷ []) (some true)

-- Arrays that hold something else
abbrev dirty : Buffers
dirty = record { out = λ b. replicate 4 9; found_mask = λ b. true }

abbrev asked : List (List ℕ)
asked = user ∷ other ∷ []

asked_visited : (b : ℕ) → b < 2 → contains b (1 ∷ 0 ∷ []) ≡ true
asked_visited =
    below_suc (λ b. contains b (1 ∷ 0 ∷ []) ≡ true) 1
      (below_suc (λ b. contains b (1 ∷ 0 ∷ []) ≡ true) 0 (λ j lt. absurd (omega arith)) refl) refl

small_elements : small.total_element_count ≡ total_element_count two_fields
unfolding derive_layout
small_elements = refl

small_table : small.assembly_table ≡ compute_assembly_table toy_hash two_fields
unfolding derive_layout
small_table = refl

four_elements : 4 ≡ small.total_element_count
unfolding derive_layout total_element_count element_count
four_elements = refl

asked_full : any_empty asked ≡ false
unfolding any_empty
asked_full = refl

taken_rows : take_array none dirty.out ≡ ok dirty.out
unfolding take_array
taken_rows = refl

taken_marks : take_array none dirty.found_mask ≡ ok dirty.found_mask
unfolding take_array
taken_marks = refl

-- The parallel kernel takes the second row first.
assemble_batch_lem_example :
    (to : Buffers) × (assemble_batch toy_cast toy_hash 1 dirty
        (1 ∷ 0 ∷ [])
        one_user
        small
        asked
        none
        none
      ≡ ok to)
    × ((b : ℕ) (id : List ℕ)
        → get_elem? asked b ≡ some id
        → RowIs toy_cast toy_hash one_user small id (to.out b) (to.found_mask b))
assemble_batch_lem_example =
    assemble_batch_lem toy_cast toy_hash 1 dirty (1 ∷ 0 ∷ []) one_user-IsSegment toy_hash two_fields
      small_table small_elements asked none none dirty.out dirty.found_mask asked_full asked_visited
      taken_rows taken_marks (λ b lt. four_elements)
