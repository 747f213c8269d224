-- ===== src/Segment/Insert/Update.antt =====
-- `insert` for an id that the segment holds.
use native.Mathlib.Decide.{dec_lt}
use quorin.Base.{
  ℕ, zero, suc, ◌+◌, ◌*◌, ◌≤◌, ◌<◌, ◌≡◌, ◌≢◌, ◌⊎◌, refl, sym, ◌∙◌, ap, subst, arith, false, List,
  ◌∷◌, length, inl, inr, eq→==, le→ltb,
}
use quorin.Result.{ok}
use quorin.Memory.{Memory, read_bytes, write_bytes, read_u64}
use quorin.Memory.Frame.{write_bytes-outside, read_bytes-write_bytes, read_bytes-write_bytes-Apart}
use quorin.Layout.{SegmentLayout, read_metadata}
use quorin.Segment.{Slot, slot_at, occupied, empty, row_offset, lookup, insert, insert_at}
use quorin.Segment.Slots.{
  flags_at, stored_id, row_index, next_row, pool_cursor, count_filled, IsSlot, IsSegment, probed-lt,
  probed,
}
use quorin.Segment.Probing.{probe-found}
use quorin.Segment.View.{Holds}
use quorin.Segment.Stable.{SameView, lookup-SameView}
use quorin.Segment.Old.{IsOld, slot_old, string_old, stored_len_old, stored_id_old}

module _ (hash : List ℕ → ℕ) {l : SegmentLayout} {buf : Memory} (inv : IsSegment hash buf l)
    {buf' : Memory}
    (same : (b : ℕ) → IsOld l l.slot_capacity (pool_cursor buf) b → buf' b ≡ buf b) where
  slot_same : (i : ℕ) → i < l.slot_capacity → slot_at buf' l i ≡ slot_at buf l i
  slot_same i lt = slot_old hash inv l.slot_capacity same i lt (omega arith)

  flags_same : (i : ℕ) → i < l.slot_capacity → flags_at buf' l i ≡ flags_at buf l i
  flags_same i lt = ap (λ (t : Slot). t.flags) (slot_same i lt)

  view_same : SameView l buf' buf
  view_same = record {
    flags = flags_same;
    slot = λ i lt on. slot_same i lt;
    string = string_old hash inv l.slot_capacity same;
  }

  count_same : (n : ℕ) → n ≤ l.slot_capacity → count_filled buf' l n ≡ count_filled buf l n
  unfolding count_filled
  count_same zero h = refl
  count_same (suc n) h = rw (count_same n (omega arith), flags_same n (omega arith))

  module _ (meta : read_metadata buf' ≡ read_metadata buf) where
    next_same : next_row buf' ≡ next_row buf
    next_same = ap (λ (t : ℕ × ℕ). t.0) meta

    cursor_same : pool_cursor buf' ≡ pool_cursor buf
    cursor_same = ap (λ (t : ℕ × ℕ). t.1) meta

    module _ (i : ℕ) (lt : i < l.slot_capacity) (on : flags_at buf l i ≡ occupied) where
      id_same : stored_id buf' l i ≡ stored_id buf l i
      id_same = stored_id_old hash inv l.slot_capacity same i lt on (slot_same i lt)

      same-IsSlot : IsSlot hash buf' l i
      same-IsSlot =
          let s = inv.slots i lt on in
          let e = slot_same i lt in
          let len = stored_len_old hash inv l.slot_capacity same i lt on e in
          record {
            fits = omega (arith, ap (λ (t : Slot). t.id_offset) e, len, s.fits, cursor_same);
            short = rw len s.short;
            row_used =
                omega (arith, ap (λ (t : Slot). t.feature_row_index) e, s.row_used, next_same);
            hashed = ap (λ (t : Slot). t.name_hash) e ∙ s.hashed ∙ sym (ap hash id_same);
            distance = s.distance;
            near = s.near;
            reached = rw id_same s.reached;
            filled = λ k h.
                rw id_same (λ z.
                  s.filled k h (sym (flags_same (probed l _ k) (probed-lt l inv.pow _ k)) ∙ z));
          }

    -- A segment whose cursors, slots and ids are unchanged stays well-formed.
    same-IsSegment : IsSegment hash buf' l
    same-IsSegment =
        let was = λ (i : ℕ) (lt : i < l.slot_capacity) (on : flags_at buf' l i ≡ occupied).
          sym (flags_same i lt) ∙ on in
        let row_same = λ (i : ℕ) (lt : i < l.slot_capacity).
          ap (λ (t : Slot). t.feature_row_index) (slot_same i lt) in
        record {
          layout = inv.layout;
          pow = inv.pow;
          rows_left = omega (arith, next_same, inv.rows_left);
          pool_left = omega (arith, cursor_same, inv.pool_left);
          flags_known = λ i lt.
              subst (λ f. (f ≡ empty) ⊎ (f ≡ occupied)) (sym (flags_same i lt))
                (inv.flags_known i lt);
          slots = λ i lt on. same-IsSlot i lt (was i lt on);
          unique_id = λ i j li lj oi oj e.
              inv.unique_id i j li lj (was i li oi) (was j lj oj)
                (sym (id_same i li (was i li oi)) ∙ e ∙ id_same j lj (was j lj oj));
          unique_row = λ i j li lj oi oj e.
              inv.unique_row i j li lj (was i li oi) (was j lj oj)
                (sym (row_same i li) ∙ e ∙ row_same j lj);
          counted = omega (arith, count_same l.slot_capacity (omega arith), next_same, inv.counted);
        }

rows_apart : (i j size : ℕ) → i ≢ j → (i * size + size ≤ j * size) ⊎ (j * size + size ≤ i * size)
rows_apart i j size h = elim (dec_lt i j) [ yes lt ↦ inl (grind arith) | no ge ↦ inr (grind arith) ]

-- The outcome of writing the row of the entity in slot `j` in place
pub record Updated (hash : List ℕ → ℕ) (l : SegmentLayout) (buf : Memory) (j : ℕ) (row : List ℕ)
    (buf' : Memory) : Type 0 where
  pub well_formed : IsSegment hash buf' l
  pub stored : read_bytes buf' (row_offset buf l j) l.row_size ≡ row
  pub lookups : (id : List ℕ) → lookup hash buf' l id ≡ lookup hash buf l id
  pub rows_kept :
      (i : ℕ)
      → i < l.slot_capacity
      → flags_at buf l i ≡ occupied
      → i ≢ j
      → read_bytes buf' (row_offset buf l i) l.row_size
        ≡ read_bytes buf (row_offset buf l i) l.row_size

module _ (hash : List ℕ → ℕ) {l : SegmentLayout} {buf : Memory} (inv : IsSegment hash buf l) (c : ℕ)
    (cs row : List ℕ) (j : ℕ) (held : Holds buf l (c ∷ cs) j) (sized : length row ≡ l.row_size)
    (short : length (c ∷ cs) ≤ l.max_id_bytes) where
  abbrev updated : Memory
  updated = write_bytes buf (row_offset buf l j) row

  old_same : (b : ℕ) → IsOld l l.slot_capacity (pool_cursor buf) b → updated b ≡ buf b
  old_same b old =
      let lay = inv.layout in
      write_bytes-outside buf (row_offset buf l j) row b (omega (arith, inv.pool_left))

  meta_same : read_metadata updated ≡ read_metadata buf
  unfolding read_metadata read_u64
  meta_same =
      let lay = inv.layout in
      rw (
        read_bytes-write_bytes-Apart buf (row_offset buf l j) row 16 8 (omega arith),
        read_bytes-write_bytes-Apart buf (row_offset buf l j) row 24 8 (omega arith),
      )

  -- Inserting an id that the segment holds returns False. The row of the entity holds the given
  -- bytes, all rows of other entities are as before, and so are the results of all lookups, of
  -- this id too.
  pub insert-Updated :
      (insert hash buf l (c ∷ cs) row ≡ ok (false, updated)) × Updated hash l buf j row updated
  unfolding insert insert_at
  insert-Updated = (
    rw (
      eq→== (length row) l.row_size sized,
      le→ltb l.max_id_bytes (length (c ∷ cs)) short,
      probe-found hash inv (c ∷ cs) j held.inside held.on held.same,
    ),
    record {
      well_formed = same-IsSegment hash inv old_same meta_same;
      stored = read_bytes-write_bytes buf (row_offset buf l j) row l.row_size sized;
      lookups = lookup-SameView inv.pow (view_same hash inv old_same) hash;
      rows_kept = λ i lt on ne.
          let other : row_index buf l i ≢ row_index buf l j =
            λ e. ne (inv.unique_row i j lt held.inside on held.on e) in
          let apart = rows_apart (row_index buf l i) (row_index buf l j) l.row_size other in
          read_bytes-write_bytes-Apart buf (row_offset buf l j) row (row_offset buf l i) l.row_size
            (omega (arith, apart, sized));
    },
  )
