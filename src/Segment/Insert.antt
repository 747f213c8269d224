-- ===== src/Segment/Insert.antt =====
-- The bytes that `_insert_into_empty_slot` leaves.
pub mod Keeps
pub mod New
pub mod Update
pub mod Success
use quorin.Base.{
  ℕ, zero, suc, ◌+◌, ◌*◌, ◌^◌, ◌≤◌, ◌<◌, ◌≡◌, ◌≢◌, ◌⊎◌, refl, sym, ◌∙◌, ap, subst, arith, List, [],
  ◌∷◌, take, drop, length, All, inl, inr,
}
use quorin.Memory.{Memory, read_bytes, write_bytes, le_bytes, read_u32, read_u64, from_le}
use quorin.Memory.Frame.{
  Apart, write_bytes-outside, read_bytes-write_bytes, read_bytes-write_bytes-Apart, length-le_bytes,
  from_le-le_bytes_4, from_le-le_bytes_8,
}
use quorin.Layout.{SegmentLayout, metadata_offset, read_metadata}
use quorin.Layout.Regions.{IsLayout}
use quorin.Segment.{slot_at, occupied, slot_base, row_offset, Write, apply_writes, insert_writes}
use quorin.Segment.Slots.{stored_len, stored_id}

-- A read apart from all the writes sees what was there before them.
pub apply_writes-read :
    (ws : List Write) (buf : Memory) (a n : ℕ)
    → All (λ w. Apart w.0 (length w.1) a n) ws
    → read_bytes (apply_writes buf ws) a n ≡ read_bytes buf a n
unfolding apply_writes
apply_writes-read [] buf a n h = refl
apply_writes-read (w ∷ ws) buf a n h =
    apply_writes-read ws (write_bytes buf w.0 w.1) a n h.1
    ∙ read_bytes-write_bytes-Apart buf w.0 w.1 a n h.0

-- A read of what the first of the writes wrote, if the others are apart from it
pub apply_writes-first :
    (a : ℕ) (bs : List ℕ) (ws : List Write) (buf : Memory) (n : ℕ)
    → length bs ≡ n
    → All (λ w. Apart w.0 (length w.1) a n) ws
    → read_bytes (apply_writes buf ((a, bs) ∷ ws)) a n ≡ bs
unfolding apply_writes
apply_writes-first a bs ws buf n len h =
    apply_writes-read ws (write_bytes buf a bs) a n h ∙ read_bytes-write_bytes buf a bs n len

module _ (l : SegmentLayout) (lay : IsLayout l) (buf : Memory) where
  module _ (idx h next cursor : ℕ) (id row : List ℕ) (idx_lt : idx < l.slot_capacity)
      (short : length id ≤ l.max_id_bytes)
      (fits : cursor + (4 + length id) ≤ l.string_pool_data_bytes) where
    abbrev pub writes : List Write
    writes = insert_writes l idx h id row next cursor

    abbrev pub after : Memory
    after = apply_writes buf writes

    -- Write number `k` is read back, if the later ones are apart from it.
    read_write :
        (k a n : ℕ) (bs : List ℕ) (rest : List Write)
        → after ≡ apply_writes (apply_writes buf (take k writes)) ((a, bs) ∷ rest)
        → length bs ≡ n
        → All (λ w. Apart w.0 (length w.1) a n) rest
        → read_bytes after a n ≡ bs
    read_write k a n bs rest e len h =
        ap (λ m. read_bytes m a n) e
        ∙ apply_writes-first a bs rest (apply_writes buf (take k writes)) n len h

    next_bytes : read_bytes after metadata_offset 8 ≡ le_bytes 8 (next + 1)
    unfolding insert_writes apply_writes
    next_bytes =
        read_write 0 _ _ _ (drop 1 writes) refl (length-le_bytes 8 (next + 1))
          (omega (arith, length-le_bytes))

    cursor_bytes : read_bytes after (metadata_offset + 8) 8 ≡ le_bytes 8 (cursor + (4 + length id))
    unfolding insert_writes apply_writes
    cursor_bytes =
        read_write 1 _ _ _ (drop 2 writes) refl (length-le_bytes 8 (cursor + (4 + length id)))
          (omega (arith, length-le_bytes))

    len_bytes : read_bytes after (l.string_pool_data_offset + cursor) 4 ≡ le_bytes 4 (length id)
    unfolding insert_writes apply_writes
    len_bytes =
        read_write 2 _ _ _ (drop 3 writes) refl (length-le_bytes 4 (length id))
          (omega (arith, length-le_bytes))

    id_bytes : read_bytes after (l.string_pool_data_offset + cursor + 4) (length id) ≡ id
    unfolding insert_writes apply_writes
    id_bytes = read_write 3 _ _ _ (drop 4 writes) refl (refl) (omega (arith, length-le_bytes))

    row_bytes : read_bytes after (l.feature_rows_offset + next * l.row_size) (length row) ≡ row
    unfolding insert_writes apply_writes
    row_bytes = read_write 4 _ _ _ (drop 5 writes) refl (refl) (omega (arith, length-le_bytes))

    hash_bytes : read_bytes after (slot_base l idx) 8 ≡ le_bytes 8 h
    unfolding insert_writes apply_writes
    hash_bytes =
        read_write 5 _ _ _ (drop 6 writes) refl (length-le_bytes 8 h)
          (omega (arith, length-le_bytes))

    offset_bytes : read_bytes after (slot_base l idx + 8) 8 ≡ le_bytes 8 cursor
    unfolding insert_writes apply_writes
    offset_bytes =
        read_write 6 _ _ _ (drop 7 writes) refl (length-le_bytes 8 cursor)
          (omega (arith, length-le_bytes))

    index_bytes : read_bytes after (slot_base l idx + 20) 4 ≡ le_bytes 4 next
    unfolding insert_writes apply_writes
    index_bytes =
        read_write 7 _ _ _ (drop 8 writes) refl (length-le_bytes 4 next)
          (omega (arith, length-le_bytes))

    flags_bytes : read_bytes after (slot_base l idx + 16) 4 ≡ le_bytes 4 occupied
    unfolding insert_writes apply_writes
    flags_bytes =
        read_write 8 _ _ _ (drop 9 writes) refl (length-le_bytes 4 occupied)
          (omega (arith, length-le_bytes))

    module _ (h_u64 : h < 2 ^ 64) (next_lt : next < l.capacity) where
      pool_end : l.string_pool_data_bytes ≤ 2 ^ 36
      pool_end = omega (arith, lay.rows_behind, lay.rows_inside, lay.total_bound)

      pub slot-after :
          slot_at after l idx
          ≡ record { name_hash = h; id_offset = cursor; flags = occupied; feature_row_index = next }
      unfolding slot_at read_u64 read_u32
      slot-after =
          let hash_e = ap from_le hash_bytes ∙ from_le-le_bytes_8 h h_u64 in
          let offset_e =
            ap from_le offset_bytes ∙ from_le-le_bytes_8 cursor (omega (arith, pool_end)) in
          let flags_e = ap from_le flags_bytes ∙ from_le-le_bytes_4 occupied (omega arith) in
          let index_e =
            ap from_le index_bytes ∙ from_le-le_bytes_4 next (omega (arith, lay.capacity_u32)) in
          λ t. record {
            name_hash = hash_e t;
            id_offset = offset_e t;
            flags = flags_e t;
            feature_row_index = index_e t;
          }

      pub metadata-after : read_metadata after ≡ (next + 1, cursor + (4 + length id))
      unfolding read_metadata read_u64
      metadata-after =
          let next_e =
            ap from_le next_bytes
            ∙ from_le-le_bytes_8 (next + 1) (omega (arith, lay.capacity_u32)) in
          let cursor_e =
            ap from_le cursor_bytes
            ∙ from_le-le_bytes_8 (cursor + (4 + length id)) (omega (arith, pool_end)) in
          λ t. (next_e t, cursor_e t)

      pub stored_len-after : stored_len after l idx ≡ length id
      unfolding read_u32
      stored_len-after = rw slot-after (
          ap from_le len_bytes
          ∙ from_le-le_bytes_4 (length id) (omega (arith, lay.id_ceiling, pool_end)))

      pub stored_id-after : stored_id after l idx ≡ id
      stored_id-after = rw (stored_len-after, slot-after) id_bytes

      pub row-after : read_bytes after (row_offset after l idx) (length row) ≡ row
      row-after = rw slot-after row_bytes
