-- ===== src/InsertKernel/Row.antt =====
-- One round of the kernel, beside `insert`.
use quorin.Base.{
  ℕ, zero, suc, ◌+◌, ◌-◌, ◌*◌, ◌%◌, ◌≤◌, ◌<◌, ◌≡◌, ◌≢◌, refl, sym, ◌∙◌, ap, subst, arith, some,
  List, [], ◌∷◌, length, All, ◌⊎◌, inr, bit_and, ne→==, eq→==,
}
use quorin.Memory.{Memory, read_bytes, write_bytes, le_bytes, from_le, write_u64, read_u32}
use quorin.Memory.Frame.{length-le_bytes, length-read_bytes, read_bytes-write_bytes-Apart}
use quorin.Memory.Order.{write_bytes_comm, write_bytes-again}
use quorin.Schema.Offsets.{OffsetRow}
use quorin.Schema.Table.Rows.{EndsBy}
use quorin.Layout.{SegmentLayout, write_metadata}
use quorin.Layout.Regions.{IsLayout, SlotsPow2}
use quorin.Segment.{slot_at, empty, Write, apply_writes, insert_writes}
use quorin.Segment.Slots.{flags_at, probed, probed_step, masked}
use quorin.Segment.Writes.{
  apply_writes-append, apply_writes-cons, apply_writes-later, apply_writes-Inside, Inside,
}
use quorin.InsertKernel.{
  KernelField, kernel_fields, find_vacant, scatter_writes, slot_writes, row_writes,
}

-- New cursors in place of old ones
pub write_metadata-again :
    (m : Memory) (a b c d : ℕ)
    → write_bytes (write_bytes (write_metadata m a b) 16 (le_bytes 8 c)) 24 (le_bytes 8 d)
      ≡ write_metadata m c d
unfolding write_metadata write_u64
write_metadata-again m a b c d =
    let z = length-le_bytes 8 in
    let first = write_bytes m 16 (le_bytes 8 a) in
    ap (λ (t : Memory). write_bytes t 24 (le_bytes 8 d))
      (write_bytes_comm first 24 (le_bytes 8 b) 16 (le_bytes 8 c) (omega (arith, z))
        ∙ ap (λ (t : Memory). write_bytes t 24 (le_bytes 8 b))
            (write_bytes-again m 16 (le_bytes 8 a) (le_bytes 8 c) (omega (arith, z))))
    ∙ write_bytes-again (write_bytes m 16 (le_bytes 8 c)) 24 (le_bytes 8 b) (le_bytes 8 d)
        (omega (arith, z))

-- Writes behind the header, and then new cursors
write_metadata-later :
    (m : Memory) (a b : ℕ) (ws : List Write)
    → All (λ w. 64 ≤ w.0) ws
    → apply_writes (write_metadata m a b) ws ≡ write_metadata (apply_writes m ws) a b
unfolding write_metadata write_u64
write_metadata-later m a b ws h =
    let z = length-le_bytes 8 in
    apply_writes-later (write_bytes m 16 (le_bytes 8 a)) 24 (le_bytes 8 b) ws
      (apart 24 (le_bytes 8 b) ws h (omega (arith, z)))
    ∙ ap (λ (t : Memory). write_bytes t 24 (le_bytes 8 b))
        (apply_writes-later m 16 (le_bytes 8 a) ws
          (apart 16 (le_bytes 8 a) ws h (omega (arith, z))))
  where
    apart :
        (a : ℕ) (bs : List ℕ) (ws : List Write)
        → All (λ w. 64 ≤ w.0) ws
        → a + length bs ≤ 64
        → All (λ w. (w.0 + length w.1 ≤ a) ⊎ (a + length bs ≤ w.0)) ws
    apart a bs [] h e = tt
    apart a bs (w ∷ ws) h e = (inr (omega arith), apart a bs ws h.1 e)

-- The cursors are no part of the slots.
pub flags-write_metadata :
    (m : Memory) (l : SegmentLayout)
    → l.slot_table_offset ≡ 64
    → (a b i : ℕ) → flags_at (write_metadata m a b) l i ≡ flags_at m l i
unfolding slot_at read_u32 write_metadata write_u64
flags-write_metadata m l at a b i =
    let z = length-le_bytes 8 in
    let address = l.slot_table_offset + i * 24 + 16 in
    ap from_le (
      read_bytes-write_bytes-Apart (write_bytes m 16 (le_bytes 8 a)) 24 (le_bytes 8 b) address 4
        (omega (arith, z))
      ∙ read_bytes-write_bytes-Apart m 16 (le_bytes 8 a) address 4 (omega (arith, z)))

-- The kernel's search stops at the first empty slot on the way of the probe.
module _ (l : SegmentLayout) (pow : SlotsPow2 l) (buf : Memory) (h v : ℕ)
    (vacant_here : flags_at buf l (probed l h v) ≡ empty)
    (filled_before : (m : ℕ) → m < v → flags_at buf l (probed l h m) ≢ empty) where
  find_from :
      (d k r : ℕ) → k + d ≡ v → d < r → find_vacant buf l r (probed l h k) ≡ some (probed l h v)
  unfolding find_vacant
  find_from d k zero e lt = absurd (omega arith)
  find_from zero k (suc r) e lt =
      let at : k ≡ v = omega arith in
      let here = eq→== (flags_at buf l (probed l h v)) empty vacant_here in rw at (rw here refl)
  find_from (suc d) k (suc r) e lt =
      let used = ne→== (flags_at buf l (probed l h k)) empty (filled_before k (omega arith)) in
      rw (used, probed_step l pow h k) (find_from d (k + 1) r (omega arith) (omega arith))

  pub find_vacant_lem :
      v < l.slot_capacity
      → find_vacant buf l l.slot_capacity (bit_and h (l.slot_capacity - 1)) ≡ some (probed l h v)
  find_vacant_lem lt =
      let e : h + 0 ≡ h = omega arith in
      rw (masked l pow h) (
        subst (λ t. find_vacant buf l l.slot_capacity (t % l.slot_capacity) ≡ some (probed l h v)) e
          (find_from v 0 l.slot_capacity (omega arith) lt))

-- The lengths of what the kernel reads of `field_data` are those of the fields.
pub scatter-Inside :
    (field_data : Memory) (row i n size start : ℕ) (t : List OffsetRow)
    → EndsBy size t
    → Inside row size (scatter_writes field_data row i (kernel_fields n start t))
unfolding scatter_writes kernel_fields
scatter-Inside field_data row i n size start [] h = tt
scatter-Inside field_data row i n size start (r ∷ t) h =
    let len = length-read_bytes field_data (start + i * r.byte_count) r.byte_count in
    (omega (arith, len), scatter-Inside field_data row i n size (start + r.byte_count * n) t h.1)

module _ (l : SegmentLayout) (lay : IsLayout l) (field_data : Memory) (fields : List KernelField)
    (buf : Memory) (i cursor : ℕ) (id : List ℕ) where
  abbrev pub row_abs : ℕ
  row_abs = l.feature_rows_offset + i * l.row_size

  abbrev pub scattered : List Write
  scattered = scatter_writes field_data row_abs i fields

  -- After the two writes to the string pool
  abbrev pub pooled : Memory
  pooled =
      write_bytes (write_bytes buf (l.string_pool_data_offset + cursor) (le_bytes 4 (length id)))
        (l.string_pool_data_offset + cursor + 4) id

  -- The row that the kernel leaves, with what stood between its fields
  abbrev pub row_of : List ℕ
  row_of = read_bytes (apply_writes pooled scattered) row_abs l.row_size

  module _ (idx h : ℕ) (inside : Inside row_abs l.row_size scattered) where
    abbrev rest : List Write
    rest =
        (l.string_pool_data_offset + cursor, le_bytes 4 (length id))
        ∷ (l.string_pool_data_offset + cursor + 4, id)
        ∷ (row_abs, row_of)
        ∷ slot_writes l idx h cursor i

    row_once :
        apply_writes buf rest ≡ apply_writes buf (row_writes l field_data fields idx h id i cursor)
    unfolding apply_writes row_writes
    row_once =
        ap (λ (t : Memory). apply_writes t (slot_writes l idx h cursor i))
          (apply_writes-Inside pooled row_abs l.row_size scattered inside)
        ∙ sym (apply_writes-append pooled scattered (slot_writes l idx h cursor i))

    rest-behind : All (λ w. 64 ≤ w.0) rest
    unfolding slot_writes
    rest-behind = omega (arith, lay.slot_table, lay.pool_behind, lay.pool_header, lay.rows_behind)

    -- `insert` into the same slot, with the cursors where they would be
    pub round-insert_writes :
        apply_writes (write_metadata buf i cursor) (insert_writes l idx h id row_of i cursor)
        ≡ write_metadata
            (apply_writes buf (row_writes l field_data fields idx h id i cursor))
            (i + 1)
            (cursor + (4 + length id))
    unfolding insert_writes slot_writes
    round-insert_writes =
        let start = write_metadata buf i cursor in
        let next = le_bytes 8 (i + 1) in
        let end = cursor + (4 + length id) in
        apply_writes-cons start 16 next ((24, le_bytes 8 end) ∷ rest)
        ∙ apply_writes-cons (write_bytes start 16 next) 24 (le_bytes 8 end) rest
        ∙ ap (λ (t : Memory). apply_writes t rest) (write_metadata-again buf i cursor (i + 1) end)
        ∙ write_metadata-later buf (i + 1) end rest rest-behind
        ∙ ap (λ (t : Memory). write_metadata t (i + 1) end) row_once
