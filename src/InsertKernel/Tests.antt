-- ===== src/InsertKernel/Tests.antt =====
-- Two entities, loaded into the new segment.
use quorin.Base.{
  ◌≤◌, ◌≢◌, below_suc, bytes_ne, ℕ, ◌*◌, ◌<◌, ◌≡◌, refl, arith, ap₂, true, [], ◌∷◌, replicate,
  length,
}
use quorin.Result.{ok}
use quorin.Memory.{Memory, read_bytes, write_bytes}
use quorin.Schema.{dtype_byte_size, element_count, byte_count}
use quorin.Schema.Offsets.{field_byte_offsets, field_row, fill_table, compute_assembly_table}
use quorin.Schema.Offsets.Geometry.{Packed}
use quorin.Schema.Table.Rows.{EndsBy}
use quorin.Align.{align_up}
use quorin.Layout.{derive_layout}
use quorin.Layout.Tests.{toy_hash, toy_hash_u64, small}
use quorin.Segment.Tests.{
  zeroed, started, started-IsSegment, user, other, started_next, started_cursor,
}
use quorin.InsertKernel.{Table, id_of, insert_many}
use quorin.InsertKernel.Loaded.{Fits, Loaded}
use quorin.InsertKernel.Many.{insert_many_lem}

-- Row `i` has twelve bytes `i` for the vector and eight bytes `7` for the counter.
abbrev two_users : Table
two_users = record {
  num_rows = 2;
  has_entity_id = true;
  has_fields = true;
  id_byte_offsets = λ i. i * 2;
  encoded_ids_concat = write_bytes (write_bytes zeroed 0 user) 2 other;
  columns = (λ i. replicate 12 i) ∷ (λ i. replicate 8 7) ∷ [];
}

small-Packed : Packed 0 small.assembly_table
unfolding derive_layout compute_assembly_table fill_table field_row field_byte_offsets align_up
    byte_count element_count dtype_byte_size
small-Packed = omega arith

small-EndsBy : EndsBy small.row_size small.assembly_table
unfolding derive_layout compute_assembly_table fill_table field_row field_byte_offsets align_up
    byte_count element_count dtype_byte_size
small-EndsBy = omega arith

below_two {ℓ} : (P : ℕ → Type ℓ) → P 0 → P 1 → (i : ℕ) → i < 2 → P i
below_two P p q = below_suc P 1 (below_suc P 0 (λ j lt. absurd (omega arith)) p) q

two_users-distinct : (i j : ℕ) → i < j → j < 2 → id_of two_users i ≢ id_of two_users j
unfolding id_of read_bytes write_bytes
two_users-distinct i j lt lt' =
    let at_i : i ≡ 0 = omega arith in
    let at_j : j ≡ 1 = omega arith in rw (at_i, at_j) (bytes_ne user other refl)

two_users-Fits : Fits small two_users
unfolding derive_layout compute_assembly_table fill_table field_row field_byte_offsets align_up
    byte_count element_count dtype_byte_size id_of read_bytes write_bytes
two_users-Fits = record {
  entity_id_there = refl;
  fields_there = refl;
  from_zero = refl;
  grows = λ i lt. omega arith;
  not_empty = below_two (λ i. id_of two_users i ≢ []) (λ e. cc) (λ e. cc);
  distinct = two_users-distinct;
  sized = (λ i lt. refl, (λ i lt. refl, tt));
  rows_room = omega arith;
  id_room =
      below_two (λ i. length (id_of two_users i) ≤ small.max_id_bytes) (omega arith) (omega arith);
  pool_room = omega arith;
}

insert_many_lem_example :
    (buf' : Memory) × (insert_many toy_hash zeroed started small two_users ≡ ok (2, buf'))
    × Loaded toy_hash small two_users 2 buf'
insert_many_lem_example =
    insert_many_lem toy_hash toy_hash_u64 small small-Packed small-EndsBy two_users two_users-Fits
      zeroed started started-IsSegment (ap₂ (λ x y. (x, y)) started_next started_cursor)
