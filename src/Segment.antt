-- ===== src/Segment.antt =====
-- quorin/layout.py: `lookup`, `insert` and `iterate_occupied` over the bytes of a segment.
-- An entity id is its UTF-8 bytes, and `hash` is `hash_entity_id`, the BLAKE2b digest of hashlib.
pub mod Slots
pub mod Probing
pub mod View
pub mod Stable
pub mod Old
pub mod Writes
pub mod Crash
pub mod Insert
pub mod Fresh
pub mod Iterate
pub mod Tests
use quorin.Base.{
  ℕ, zero, suc, ◌+◌, ◌-◌, ◌*◌, Bool, true, false, not, ◌&&◌, Option, none, some, List, [], ◌∷◌, ltb,
  leb, ◌==◌, bytes_eq, bit_and, length, if◌then◌else◌,
}
use quorin.Result.{
  Result, ok, err, value_error, capacity_exceeded, string_pool_exhausted, ◌>>=◌, ◌>>◌, raise_if,
}
use quorin.Memory.{Memory, read_bytes, write_bytes, le_bytes, read_u32, read_u64}
use quorin.Schema.{is_empty}
use quorin.Layout.{SegmentLayout, slot_bytes, len_prefix_bytes, metadata_offset, read_metadata}

abbrev pub empty : ℕ
empty = 0

abbrev pub occupied : ℕ
occupied = 1

-- One record of `SLOT_DTYPE`
pub record Slot : Type 0 where
  pub name_hash : ℕ
  pub id_offset : ℕ
  pub flags : ℕ
  pub feature_row_index : ℕ

abbrev pub slot_base : SegmentLayout → ℕ → ℕ
slot_base l idx = l.slot_table_offset + idx * slot_bytes

-- `_slot_table_view(buf, layout)[idx]`
unfoldable pub slot_at : Memory → SegmentLayout → ℕ → Slot
slot_at buf l idx = record {
  name_hash = read_u64 buf (slot_base l idx);
  id_offset = read_u64 buf (slot_base l idx + 8);
  flags = read_u32 buf (slot_base l idx + 16);
  feature_row_index = read_u32 buf (slot_base l idx + 20);
}

-- `_read_string_bytes`
unfoldable pub read_string_bytes : Memory → SegmentLayout → ℕ → Result (List ℕ)
read_string_bytes buf l id_offset = do
  let abs_offset = l.string_pool_data_offset + id_offset
  let len = read_u32 buf abs_offset
  raise_if (ltb l.max_id_bytes len) value_error
  ok (read_bytes buf (abs_offset + len_prefix_bytes) len)

-- What the probe loop that `lookup` and `insert` share comes to: the index of an empty slot, or
-- of the slot of the entity, or the end of the table.
pub data Probe : Type 0 where
  vacant : ℕ → Probe
  found : ℕ → Probe
  exhausted : Probe

abbrev pub matches : Slot → ℕ → Bool
matches slot h = (slot.flags == occupied) && (slot.name_hash == h)

-- `for _ in range(slot_capacity): ... idx = (idx + 1) & mask`, for the rounds that are left
unfoldable pub probe : Memory → SegmentLayout → ℕ → List ℕ → ℕ → ℕ → Result Probe
probe buf l h encoded zero idx = ok exhausted
probe buf l h encoded (suc rounds) idx =
    let slot = slot_at buf l idx in
    let rest = probe buf l h encoded rounds (bit_and (idx + 1) (l.slot_capacity - 1)) in
    if slot.flags == empty
    then ok (vacant idx)
    else if matches slot h
    then (do
      stored ← read_string_bytes buf l slot.id_offset
      if bytes_eq stored encoded then ok (found idx) else rest)
    else rest

-- `row_offset` of a slot
abbrev pub row_offset : Memory → SegmentLayout → ℕ → ℕ
row_offset buf l idx = l.feature_rows_offset + (slot_at buf l idx).feature_row_index * l.row_size

abbrev pub lookup_result : Memory → SegmentLayout → Probe → Option ℕ
lookup_result buf l (vacant idx) = none
lookup_result buf l (found idx) = some (row_offset buf l idx)
lookup_result buf l exhausted = none

module _ (hash : List ℕ → ℕ) where
  abbrev pub start_probe : Memory → SegmentLayout → List ℕ → Result Probe
  start_probe buf l id =
      probe buf l (hash id) id l.slot_capacity (bit_and (hash id) (l.slot_capacity - 1))

  unfoldable pub lookup : Memory → SegmentLayout → List ℕ → Result (Option ℕ)
  lookup buf l id = do
    raise_if (is_empty id) value_error
    p ← start_probe buf l id
    ok (lookup_result buf l p)

-- A write to the segment: an address and the bytes
abbrev pub Write : Type 0
Write = ℕ × List ℕ

unfoldable pub apply_writes : Memory → List Write → Memory
apply_writes buf [] = buf
apply_writes buf (w ∷ ws) = apply_writes (write_bytes buf w.0 w.1) ws

-- The writes of `_insert_into_empty_slot`, in program order: the cursors, the pool entry, the row,
-- and last the slot, whose flags come at the very end.
unfoldable pub insert_writes : SegmentLayout → ℕ → ℕ → List ℕ → List ℕ → ℕ → ℕ → List Write
insert_writes l idx h encoded row next_row pool_cursor =
    let entry_size = len_prefix_bytes + length encoded in
    let entry_abs = l.string_pool_data_offset + pool_cursor in
    (metadata_offset, le_bytes 8 (next_row + 1))
    ∷ (metadata_offset + 8, le_bytes 8 (pool_cursor + entry_size))
    ∷ (entry_abs, le_bytes 4 (length encoded))
    ∷ (entry_abs + len_prefix_bytes, encoded)
    ∷ (l.feature_rows_offset + next_row * l.row_size, row)
    ∷ (slot_base l idx, le_bytes 8 h)
    ∷ (slot_base l idx + 8, le_bytes 8 pool_cursor)
    ∷ (slot_base l idx + 20, le_bytes 4 next_row)
    ∷ (slot_base l idx + 16, le_bytes 4 occupied)
    ∷ []

-- `_insert_into_empty_slot`
unfoldable pub insert_into_empty_slot :
    Memory → SegmentLayout → ℕ → ℕ → List ℕ → List ℕ → Result (Bool × Memory)
insert_into_empty_slot buf l idx h encoded row = do
  let next_row = (read_metadata buf).0
  let pool_cursor = (read_metadata buf).1
  raise_if (leb l.capacity next_row) capacity_exceeded
  raise_if (ltb l.string_pool_data_bytes (pool_cursor + (len_prefix_bytes + length encoded)))
      string_pool_exhausted
  ok (true, apply_writes buf (insert_writes l idx h encoded row next_row pool_cursor))

-- What `insert` does where its loop stops: `True` on a new insert, `False` on an update in place.
unfoldable pub insert_at :
    Memory → SegmentLayout → ℕ → List ℕ → List ℕ → Probe → Result (Bool × Memory)
insert_at buf l h encoded row (vacant idx) = insert_into_empty_slot buf l idx h encoded row
insert_at buf l h encoded row (found idx) = ok (false, write_bytes buf (row_offset buf l idx) row)
insert_at buf l h encoded row exhausted = err capacity_exceeded

module _ (hash : List ℕ → ℕ) where
  unfoldable pub insert : Memory → SegmentLayout → List ℕ → List ℕ → Result (Bool × Memory)
  insert buf l id row = do
    raise_if (is_empty id) value_error
    raise_if (not (length row == l.row_size)) value_error
    raise_if (ltb l.max_id_bytes (length id)) string_pool_exhausted
    p ← start_probe hash buf l id
    insert_at buf l (hash id) id row p

-- The rest of `iterate_occupied` from slot `idx`, for the slots that are left
unfoldable pub iterate_from : Memory → SegmentLayout → ℕ → ℕ → Result (List (List ℕ × ℕ))
iterate_from buf l zero idx = ok []
iterate_from buf l (suc n) idx =
    let slot = slot_at buf l idx in
    let rest = iterate_from buf l n (idx + 1) in
    if slot.flags == occupied
    then (do
      id ← read_string_bytes buf l slot.id_offset
      others ← rest
      ok ((id, row_offset buf l idx) ∷ others))
    else rest

unfoldable pub iterate_occupied : Memory → SegmentLayout → Result (List (List ℕ × ℕ))
iterate_occupied buf l = iterate_from buf l l.slot_capacity 0
