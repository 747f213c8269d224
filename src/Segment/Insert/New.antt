-- ===== src/Segment/Insert/New.antt =====
-- What `insert` does for an id that the segment does not hold.
use quorin.Base.{
  ℕ, ◌+◌, ◌*◌, ◌^◌, ◌≤◌, ◌<◌, ◌≡◌, ◌≢◌, refl, sym, ◌∙◌, ap, subst, arith, true, List, ◌∷◌, some,
  length, inl, inr, leb, ◌⊎◌, Bool-cases, if◌then◌else◌, eq→==, le→ltb, lt→leb,
}
use quorin.Result.{ok, err, capacity_exceeded, string_pool_exhausted}
use quorin.Memory.{Memory, read_bytes}
use quorin.Memory.Frame.{length-le_bytes}
use quorin.Layout.{SegmentLayout, read_metadata}
use quorin.Segment.{
  occupied, row_offset, lookup, insert, insert_at, insert_into_empty_slot, insert_writes,
  apply_writes,
}
use quorin.Segment.Slots.{flags_at, stored_id, row_index, probed, next_row, pool_cursor, IsSegment}
use quorin.Segment.Probing.{Absent, FirstVacant, probe-absent}
use quorin.Segment.View.{Holds, lookup_view, holds_or_absent}
use quorin.Segment.Insert.{apply_writes-read, metadata-after, row_bytes}
use quorin.Segment.Insert.Keeps.{Extends, insert_writes-Extends}

-- The outcome of inserting a new entity: `buf'` after `buf`
pub record Inserted (hash : List ℕ → ℕ) (l : SegmentLayout) (buf : Memory) (id row : List ℕ)
    (buf' : Memory) : Type 0 where
  pub well_formed : IsSegment hash buf' l
  pub cursors : read_metadata buf' ≡ (next_row buf + 1, pool_cursor buf + (4 + length id))
  pub visible :
      lookup hash buf' l id ≡ ok (some (l.feature_rows_offset + next_row buf * l.row_size))
  pub stored : read_bytes buf' (l.feature_rows_offset + next_row buf * l.row_size) l.row_size ≡ row
  pub others :
      (c : ℕ) (cs : List ℕ) → c ∷ cs ≢ id → lookup hash buf' l (c ∷ cs) ≡ lookup hash buf l (c ∷ cs)
  pub rows_kept :
      (j : ℕ)
      → j < l.slot_capacity
      → flags_at buf l j ≡ occupied
      → read_bytes buf' (row_offset buf l j) l.row_size
        ≡ read_bytes buf (row_offset buf l j) l.row_size

row_below : (i n size : ℕ) → i < n → i * size + size ≤ n * size
row_below i n size h = grind arith

module _ (hash : List ℕ → ℕ) (hash_u64 : (b : List ℕ) → hash b < 2 ^ 64) {l : SegmentLayout}
    {buf : Memory} (inv : IsSegment hash buf l) (c : ℕ) (cs row : List ℕ)
    (absent : Absent hash inv (c ∷ cs)) (sized : length row ≡ l.row_size)
    (short : length (c ∷ cs) ≤ l.max_id_bytes) where
  module _ (v : ℕ) (first : FirstVacant hash inv (c ∷ cs) v) (rows : next_row buf < l.capacity)
      (fits : pool_cursor buf + (4 + length (c ∷ cs)) ≤ l.string_pool_data_bytes) where
    abbrev pub here : ℕ
    here = probed l (hash (c ∷ cs)) v

    abbrev pub made : Memory
    made =
        apply_writes buf
          (insert_writes l here (hash (c ∷ cs)) (c ∷ cs) row (next_row buf) (pool_cursor buf))

    extends : Extends hash l buf (c ∷ cs) here made
    extends = insert_writes-Extends hash hash_u64 inv (c ∷ cs) row absent v first rows short fits

    held_kept : (id : List ℕ) (j : ℕ) → Holds buf l id j → Holds made l id j
    held_kept id j h = record {
      inside = h.inside;
      on = extends.on_kept j h.inside h.on;
      same = extends.id_kept j h.inside h.on ∙ h.same;
    }

    absent_kept :
        (id : List ℕ) → id ≢ c ∷ cs → Absent hash inv id → Absent hash extends.well_formed id
    absent_kept id ne gone j lt on e = elim (extends.origin j lt on) [
      | inl at ↦ ne (sym e ∙ ap (stored_id made l) at ∙ extends.id_new)
      | inr used ↦ gone j lt used (sym (extends.id_kept j lt used) ∙ e)
    ]

    other_lookup :
        (d : ℕ) (ds : List ℕ)
        → d ∷ ds ≢ c ∷ cs
        → lookup hash made l (d ∷ ds) ≡ lookup hash buf l (d ∷ ds)
    other_lookup d ds ne = elim (holds_or_absent hash inv (d ∷ ds)) [
      | inl (j, h) ↦
          (lookup_view hash extends.well_formed d ds).0 j (held_kept (d ∷ ds) j h)
          ∙ ap (λ t. ok (some (l.feature_rows_offset + t * l.row_size)))
              (extends.row_kept j h.inside h.on)
          ∙ sym ((lookup_view hash inv d ds).0 j h)
      | inr gone ↦
          (lookup_view hash extends.well_formed d ds).1 (absent_kept (d ∷ ds) ne gone)
          ∙ sym ((lookup_view hash inv d ds).1 gone)
    ]

    -- A row that was handed out before lies below the new one, and behind all other writes.
    row_apart :
        (j : ℕ)
        → j < l.slot_capacity
        → flags_at buf l j ≡ occupied
        → read_bytes made (row_offset buf l j) l.row_size
          ≡ read_bytes buf (row_offset buf l j) l.row_size
    unfolding insert_writes
    row_apart j lt on =
        let below =
          row_below (row_index buf l j) (next_row buf) l.row_size (inv.slots j lt on).row_used in
        let at = inv.layout in
        apply_writes-read _ buf (row_offset buf l j) l.row_size
          (omega (arith, length-le_bytes, below))

    pub made-Inserted : Inserted hash l buf (c ∷ cs) row made
    made-Inserted = record {
      well_formed = extends.well_formed;
      cursors =
          metadata-after l inv.layout buf here (hash (c ∷ cs)) (next_row buf) (pool_cursor buf)
            (c ∷ cs) row extends.inside short fits (hash_u64 (c ∷ cs)) rows;
      visible =
          (lookup_view hash extends.well_formed c cs).0 here
            (record { inside = extends.inside; on = extends.on_new; same = extends.id_new })
          ∙ ap (λ t. ok (some (l.feature_rows_offset + t * l.row_size))) extends.row_new;
      stored =
          subst (λ n. read_bytes made (l.feature_rows_offset + next_row buf * l.row_size) n ≡ row)
            sized
            (row_bytes l inv.layout buf here (hash (c ∷ cs)) (next_row buf) (pool_cursor buf)
              (c ∷ cs) row extends.inside short fits);
      others = other_lookup;
      rows_kept = row_apart;
    }

  -- With a free row and room in the pool, inserting an id that is absent returns True. The
  -- segment stays well-formed, both cursors advance, the id is found at the next row, which holds the given bytes, all
  -- other ids are looked up as before, and no row of theirs has changed.
  pub insert-Inserted :
      next_row buf < l.capacity
      → pool_cursor buf + (4 + length (c ∷ cs)) ≤ l.string_pool_data_bytes
      → (buf' : Memory) × (insert hash buf l (c ∷ cs) row ≡ ok (true, buf'))
        × Inserted hash l buf (c ∷ cs) row buf'
  unfolding insert insert_at insert_into_empty_slot
  insert-Inserted rows fits =
      let (v, run, first) = probe-absent hash inv (c ∷ cs) absent in
      (
        made v first rows fits,
        rw (
          eq→== (length row) l.row_size sized,
          le→ltb l.max_id_bytes (length (c ∷ cs)) short,
          run,
          lt→leb l.capacity (next_row buf) rows,
          le→ltb l.string_pool_data_bytes (pool_cursor buf + (4 + length (c ∷ cs))) fits,
        ),
        made-Inserted v first rows fits,
      )

  -- For an id that is not empty, no longer than `max_id_bytes` and held by no slot, and a row of `row_size`
  -- bytes: without a free row `insert` raises CapacityExceededError, and with one, but without room in
  -- the pool, StringPoolExhaustedError.
  pub insert_full :
      (l.capacity ≤ next_row buf)
        ⊎ (l.string_pool_data_bytes < pool_cursor buf + (4 + length (c ∷ cs)))
      → insert hash buf l (c ∷ cs) row
        ≡ err (if leb l.capacity (next_row buf) then capacity_exceeded else string_pool_exhausted)
  unfolding insert insert_at insert_into_empty_slot
  insert_full full =
      let (v, run, first) = probe-absent hash inv (c ∷ cs) absent in
      let size_ok = eq→== (length row) l.row_size sized in
      let short_ok = le→ltb l.max_id_bytes (length (c ∷ cs)) short in
      rw (size_ok, short_ok, run)
        (elim (Bool-cases (leb l.capacity (next_row buf))) [
          | inl no_row ↦ rw no_row refl
          | inr row_left ↦ rw row_left (ground arith)
        ])
