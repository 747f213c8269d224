-- ===== src/Segment/Insert/Keeps.antt =====
-- The invariant of a segment over an insert into an empty slot.
use native.Mathlib.Decide.{ℕ_discrete}
use quorin.Base.{
  ℕ, zero, suc, ◌+◌, ◌^◌, ◌≤◌, ◌<◌, ◌≡◌, ◌≢◌, ◌⊎◌, refl, sym, ◌∙◌, ap, subst, arith, List, length,
  inl, inr,
}
use quorin.Memory.{Memory}
use quorin.Layout.{SegmentLayout, read_metadata}
use quorin.Segment.{Slot, slot_at, empty, occupied, apply_writes, insert_writes}
use quorin.Segment.Slots.{
  flags_at, stored_len, stored_id, row_index, next_row, pool_cursor, probed, count_filled, IsSlot,
  IsSegment, probed-lt,
}
use quorin.Segment.Probing.{Absent, FirstVacant}
use quorin.Segment.Old.{
  IsOld, apply_writes-Misses, insert_writes-IsOld, slot_old, stored_len_old, stored_id_old,
}
use quorin.Segment.Insert.{after, slot-after, metadata-after, stored_len-after, stored_id-after}

-- `buf'` holds what `buf` holds, and the id in slot `i`, with the next row.
pub record Extends (hash : List ℕ → ℕ) (l : SegmentLayout) (buf : Memory) (id : List ℕ) (i : ℕ)
    (buf' : Memory) : Type 0 where
  pub well_formed : IsSegment hash buf' l
  pub inside : i < l.slot_capacity
  pub on_new : flags_at buf' l i ≡ occupied
  pub id_new : stored_id buf' l i ≡ id
  pub row_new : row_index buf' l i ≡ next_row buf
  pub on_kept :
      (j : ℕ) → j < l.slot_capacity → flags_at buf l j ≡ occupied → flags_at buf' l j ≡ occupied
  pub id_kept :
      (j : ℕ)
      → j < l.slot_capacity
      → flags_at buf l j ≡ occupied
      → stored_id buf' l j ≡ stored_id buf l j
  pub row_kept :
      (j : ℕ)
      → j < l.slot_capacity
      → flags_at buf l j ≡ occupied
      → row_index buf' l j ≡ row_index buf l j
  pub origin :
      (j : ℕ)
      → j < l.slot_capacity
      → flags_at buf' l j ≡ occupied
      → (j ≡ i) ⊎ (flags_at buf l j ≡ occupied)

module _ (hash : List ℕ → ℕ) (hash_u64 : (b : List ℕ) → hash b < 2 ^ 64) {l : SegmentLayout}
    {buf : Memory} (inv : IsSegment hash buf l) (id row : List ℕ) (absent : Absent hash inv id)
    (v : ℕ) (first : FirstVacant hash inv id v) (rows : next_row buf < l.capacity)
    (short : length id ≤ l.max_id_bytes)
    (fits : pool_cursor buf + (4 + length id) ≤ l.string_pool_data_bytes) where
  abbrev idx : ℕ
  idx = probed l (hash id) v

  idx_lt : idx < l.slot_capacity
  idx_lt = probed-lt l inv.pow (hash id) v

  abbrev new : Memory
  new =
      after l inv.layout buf idx (hash id) (next_row buf) (pool_cursor buf) id row idx_lt short fits

  old_bytes : (b : ℕ) → IsOld l idx (pool_cursor buf) b → new b ≡ buf b
  old_bytes = apply_writes-Misses (IsOld l idx (pool_cursor buf)) _ buf (
      insert_writes-IsOld l inv.layout idx (pool_cursor buf) (hash id) (next_row buf) id row idx_lt
        inv.pool_left)

  slot_new : slot_at new l idx ≡ record {
    name_hash = hash id;
    id_offset = pool_cursor buf;
    flags = occupied;
    feature_row_index = next_row buf;
  }
  slot_new =
      slot-after l inv.layout buf idx (hash id) (next_row buf) (pool_cursor buf) id row idx_lt short
        fits (hash_u64 id) rows

  metadata_new : read_metadata new ≡ (next_row buf + 1, pool_cursor buf + (4 + length id))
  metadata_new =
      metadata-after l inv.layout buf idx (hash id) (next_row buf) (pool_cursor buf) id row idx_lt
        short fits (hash_u64 id) rows

  next_new : next_row new ≡ next_row buf + 1
  next_new = ap (λ (t : ℕ × ℕ). t.0) metadata_new

  cursor_new : pool_cursor new ≡ pool_cursor buf + (4 + length id)
  cursor_new = ap (λ (t : ℕ × ℕ). t.1) metadata_new

  id_new : stored_id new l idx ≡ id
  id_new =
      stored_id-after l inv.layout buf idx (hash id) (next_row buf) (pool_cursor buf) id row idx_lt
        short fits (hash_u64 id) rows

  len_new : stored_len new l idx ≡ length id
  len_new =
      stored_len-after l inv.layout buf idx (hash id) (next_row buf) (pool_cursor buf) id row idx_lt
        short fits (hash_u64 id) rows

  slot_kept : (i : ℕ) → i < l.slot_capacity → i ≢ idx → slot_at new l i ≡ slot_at buf l i
  slot_kept = slot_old hash inv idx old_bytes

  flags_kept : (i : ℕ) → i < l.slot_capacity → i ≢ idx → flags_at new l i ≡ flags_at buf l i
  flags_kept i lt ne = ap (λ (t : Slot). t.flags) (slot_kept i lt ne)

  -- A slot in use is another slot.
  used_ne : (i : ℕ) → flags_at buf l i ≡ occupied → i ≢ idx
  used_ne i on e = ground (arith, on, first.vacant_here, ap (flags_at buf l) e)

  id_kept :
      (i : ℕ)
      → i < l.slot_capacity
      → flags_at buf l i ≡ occupied
      → stored_id new l i ≡ stored_id buf l i
  id_kept i lt on = stored_id_old hash inv idx old_bytes i lt on (slot_kept i lt (used_ne i on))

  -- What was in use is in use, and the slot of the new entity too.
  filled_kept : (i : ℕ) → i < l.slot_capacity → flags_at buf l i ≢ empty → flags_at new l i ≢ empty
  filled_kept i lt used e = elim (ℕ_discrete i idx) [
    | yes h ↦ used (subst (λ t. flags_at buf l t ≡ empty) (sym h) first.vacant_here)
    | no ne ↦ used (sym (flags_kept i lt ne) ∙ e)
  ]

  kept-IsSlot : (i : ℕ) → i < l.slot_capacity → flags_at buf l i ≡ occupied → IsSlot hash new l i
  kept-IsSlot i lt on =
      let s = inv.slots i lt on in
      let same = slot_kept i lt (used_ne i on) in
      let len = stored_len_old hash inv idx old_bytes i lt on same in
      let id_e = id_kept i lt on in
      record {
        fits = omega (arith, ap (λ (t : Slot). t.id_offset) same, len, s.fits, cursor_new);
        short = rw len s.short;
        row_used = omega (arith, ap (λ (t : Slot). t.feature_row_index) same, s.row_used, next_new);
        hashed = ap (λ (t : Slot). t.name_hash) same ∙ s.hashed ∙ sym (ap hash id_e);
        distance = s.distance;
        near = s.near;
        reached = rw id_e s.reached;
        filled = λ k h. rw id_e (filled_kept _ (probed-lt l inv.pow _ k) (s.filled k h));
      }

  new-IsSlot : IsSlot hash new l idx
  new-IsSlot = record {
    fits = omega (arith, ap (λ (t : Slot). t.id_offset) slot_new, len_new, cursor_new);
    short = rw len_new short;
    row_used = omega (arith, ap (λ (t : Slot). t.feature_row_index) slot_new, next_new);
    hashed = ap (λ (t : Slot). t.name_hash) slot_new ∙ sym (ap hash id_new);
    distance = v;
    near = first.near;
    reached = rw id_new refl;
    filled = λ k h. rw id_new (filled_kept _ (probed-lt l inv.pow _ k) (first.filled_before k h));
  }

  flags_new : flags_at new l idx ≡ occupied
  flags_new = ap (λ (t : Slot). t.flags) slot_new

  -- A slot in use afterwards is the new one or was in use before.
  abbrev Origin : ℕ → Type 0
  Origin i = (i ≡ idx) ⊎ ((i ≢ idx) × (flags_at buf l i ≡ occupied))

  origin : (i : ℕ) → i < l.slot_capacity → flags_at new l i ≡ occupied → Origin i
  origin i lt on = elim (ℕ_discrete i idx) [
    | yes e ↦ inl e
    | no ne ↦ inr (ne, sym (flags_kept i lt ne) ∙ on)
  ]

  -- No other slot holds the new id or the new row.
  id_fresh : (i : ℕ) → i < l.slot_capacity → flags_at buf l i ≡ occupied → stored_id new l i ≢ id
  id_fresh i lt on e = absent i lt on (sym (id_kept i lt on) ∙ e)

  row_kept :
      (i : ℕ)
      → i < l.slot_capacity
      → flags_at buf l i ≡ occupied
      → row_index new l i ≡ row_index buf l i
  row_kept i lt on = ap (λ (t : Slot). t.feature_row_index) (slot_kept i lt (used_ne i on))

  row_new : row_index new l idx ≡ next_row buf
  row_new = ap (λ (t : Slot). t.feature_row_index) slot_new

  row_fresh :
      (i : ℕ) → i < l.slot_capacity → flags_at buf l i ≡ occupied → row_index new l i ≢ next_row buf
  row_fresh i lt on e = absurd (omega (arith, row_kept i lt on, (inv.slots i lt on).row_used))

  count_before : (n : ℕ) → n ≤ idx → count_filled new l n ≡ count_filled buf l n
  unfolding count_filled
  count_before zero h = refl
  count_before (suc n) h =
      rw (count_before n (omega arith), flags_kept n (omega (arith, idx_lt)) (omega arith))

  count_after :
      (n : ℕ) → n ≤ l.slot_capacity → idx < n → count_filled new l n ≡ count_filled buf l n + 1
  unfolding count_filled
  count_after zero h lt = absurd (omega arith)
  count_after (suc n) h lt = elim (ℕ_discrete n idx) [
    | yes e ↦
        let new_flag : flags_at new l n ≡ occupied = ap (flags_at new l) e ∙ flags_new in
        let old_flag : flags_at buf l n ≡ empty = ap (flags_at buf l) e ∙ first.vacant_here in
        ground (arith, new_flag, old_flag, count_before n (omega arith))
    | no ne ↦
        ground (arith, flags_kept n (omega arith) ne, count_after n (omega arith) (omega arith))
  ]

  unique_id_new :
      (i j : ℕ)
      → i < l.slot_capacity
      → j < l.slot_capacity
      → Origin i
      → Origin j
      → stored_id new l i ≡ stored_id new l j
      → i ≡ j
  unique_id_new i j li lj (inl p) (inl q) e = p ∙ sym q
  unique_id_new i j li lj (inl p) (inr (ne, on)) e =
      absurd (id_fresh j lj on (sym e ∙ ap (stored_id new l) p ∙ id_new))
  unique_id_new i j li lj (inr (ne, on)) (inl q) e =
      absurd (id_fresh i li on (e ∙ ap (stored_id new l) q ∙ id_new))
  unique_id_new i j li lj (inr (ni, oi)) (inr (nj, oj)) e =
      inv.unique_id i j li lj oi oj (sym (id_kept i li oi) ∙ e ∙ id_kept j lj oj)

  unique_row_new :
      (i j : ℕ)
      → i < l.slot_capacity
      → j < l.slot_capacity
      → Origin i
      → Origin j
      → row_index new l i ≡ row_index new l j
      → i ≡ j
  unique_row_new i j li lj (inl p) (inl q) e = p ∙ sym q
  unique_row_new i j li lj (inl p) (inr (ne, on)) e =
      absurd (row_fresh j lj on (sym e ∙ ap (row_index new l) p ∙ row_new))
  unique_row_new i j li lj (inr (ne, on)) (inl q) e =
      absurd (row_fresh i li on (e ∙ ap (row_index new l) q ∙ row_new))
  unique_row_new i j li lj (inr (ni, oi)) (inr (nj, oj)) e =
      inv.unique_row i j li lj oi oj (sym (row_kept i li oi) ∙ e ∙ row_kept j lj oj)

  flags_known_new :
      (i : ℕ) → i < l.slot_capacity → (flags_at new l i ≡ empty) ⊎ (flags_at new l i ≡ occupied)
  flags_known_new i lt = elim (ℕ_discrete i idx) [
    | yes e ↦ inr (ap (flags_at new l) e ∙ flags_new)
    | no ne ↦
        subst (λ f. (f ≡ empty) ⊎ (f ≡ occupied)) (sym (flags_kept i lt ne)) (inv.flags_known i lt)
  ]

  -- The segment stays well-formed.
  new-IsSegment : IsSegment hash new l
  new-IsSegment = record {
    layout = inv.layout;
    pow = inv.pow;
    rows_left = omega (arith, next_new);
    pool_left = omega (arith, cursor_new);
    flags_known = flags_known_new;
    slots = λ i lt on. elim (origin i lt on) [
      | inl e ↦ subst (IsSlot hash new l) (sym e) new-IsSlot
      | inr (ne, used) ↦ kept-IsSlot i lt used
    ];
    unique_id = λ i j li lj oi oj. unique_id_new i j li lj (origin i li oi) (origin j lj oj);
    unique_row = λ i j li lj oi oj. unique_row_new i j li lj (origin i li oi) (origin j lj oj);
    counted =
        omega (arith, count_after l.slot_capacity (omega arith) idx_lt, inv.counted, next_new);
  }

  -- The writes of the insert extend the segment by the entity.
  pub insert_writes-Extends :
      Extends hash l buf id idx
        (apply_writes buf (insert_writes l idx (hash id) id row (next_row buf) (pool_cursor buf)))
  insert_writes-Extends = record {
    well_formed = new-IsSegment;
    inside = idx_lt;
    on_new = flags_new;
    id_new = id_new;
    row_new = row_new;
    on_kept = λ j lt on. flags_kept j lt (used_ne j on) ∙ on;
    id_kept = id_kept;
    row_kept = row_kept;
    origin = λ j lt on. elim (origin j lt on) [ inl e ↦ inl e | inr (ne, used) ↦ inr used ];
  }
