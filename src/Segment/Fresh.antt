-- ===== src/Segment/Fresh.antt =====
-- A segment that `initialize_segment_regions` has just set up.
use quorin.Base.{
  ℕ, zero, suc, ◌+◌, ◌*◌, ◌≤◌, ◌<◌, ◌≡◌, ◌≢◌, refl, ◌∙◌, ap, arith, List, ◌∷◌, none, inl,
}
use quorin.Result.{ok}
use quorin.Memory.{Memory, read_bytes, le_bytes, from_le, read_u32, read_u64, write_u32, write_u64}
use quorin.Memory.Frame.{
  write_bytes-outside, read_bytes_congr, read_bytes-write_bytes-Apart, length-le_bytes,
  read_u64-write_u64,
}
use quorin.Layout.{
  SegmentLayout, read_metadata, write_metadata, write_pool_header, initialize_segment_regions,
}
use quorin.Layout.Regions.{IsLayout, SlotsPow2}
use quorin.Segment.{slot_at, empty, occupied, slot_base, lookup}
use quorin.Segment.Slots.{flags_at, next_row, pool_cursor, count_filled, IsSegment}
use quorin.Segment.View.{lookup_view}

-- The slot table is zero, as in a new mapping.
abbrev pub ZeroTable : SegmentLayout → Memory → Type 0
ZeroTable l buf = (a : ℕ) → 64 ≤ a → a < 64 + l.slot_capacity * 24 → buf a ≡ 0

module _ (l : SegmentLayout) (lay : IsLayout l) (buf : Memory) where
  abbrev fresh : Memory
  fresh = initialize_segment_regions buf l

  fresh_outside : (a : ℕ) → 64 ≤ a → a < 64 + l.slot_capacity * 24 → fresh a ≡ buf a
  unfolding initialize_segment_regions write_u32 write_u64
  fresh_outside a lo hi =
      let z4 = length-le_bytes 4 in
      let z8 = length-le_bytes 8 in
      write_bytes-outside _ (l.string_pool_offset + 4) (le_bytes 4 0) a (omega (arith, z4))
      ∙ write_bytes-outside _ l.string_pool_offset (le_bytes 4 l.max_id_bytes) a (omega (arith, z4))
      ∙ write_bytes-outside _ 24 (le_bytes 8 0) a (omega (arith, z8))
      ∙ write_bytes-outside buf 16 (le_bytes 8 0) a (omega (arith, z8))

  pub fresh-ZeroTable : ZeroTable l buf → ZeroTable l fresh
  fresh-ZeroTable z a lo hi = fresh_outside a lo hi ∙ z a lo hi

  -- The pool header leaves the cursors as they are.
  header_apart :
      (m : Memory) (a : ℕ) → a + 8 ≤ 64 → read_u64 (write_pool_header m l) a ≡ read_u64 m a
  unfolding write_pool_header write_u32 read_u64
  header_apart m a below =
      let z4 = length-le_bytes 4 in
      ap from_le (
        read_bytes-write_bytes-Apart _ (l.string_pool_offset + 4) (le_bytes 4 0) a 8
          (omega (arith, z4))
        ∙ read_bytes-write_bytes-Apart m l.string_pool_offset (le_bytes 4 l.max_id_bytes) a 8
            (omega (arith, z4)))

  first_cursor :
      (m : Memory) (x y : ℕ)
      → read_u64 (write_u64 (write_u64 m 16 x) 24 y) 16 ≡ read_u64 (write_u64 m 16 x) 16
  unfolding write_u64 read_u64
  first_cursor m x y =
      ap from_le
        (read_bytes-write_bytes-Apart _ 24 (le_bytes 8 y) 16 8 (omega (arith, length-le_bytes 8)))

  pub fresh_metadata : read_metadata fresh ≡ (0, 0)
  unfolding initialize_segment_regions read_metadata write_metadata
  fresh_metadata = rw (
    header_apart (write_u64 (write_u64 buf 16 0) 24 0) 16 (omega arith),
    header_apart (write_u64 (write_u64 buf 16 0) 24 0) 24 (omega arith),
    first_cursor buf 0 0,
    read_u64-write_u64 buf 16 0 (omega arith),
    read_u64-write_u64 (write_u64 buf 16 0) 24 0 (omega arith),
  )

module _ (l : SegmentLayout) (lay : IsLayout l) (buf : Memory) (zeros : ZeroTable l buf) where
  zero_u32 : (a : ℕ) → 64 ≤ a → a + 4 ≤ 64 + l.slot_capacity * 24 → read_u32 buf a ≡ 0
  unfolding read_u32
  zero_u32 a lo hi =
      ap from_le (read_bytes_congr buf (λ _. 0) a 4 (λ i p q. zeros i (omega arith) (omega arith)))
      ∙ (unfold from_le read_bytes in refl)

  pub zero_flags : (i : ℕ) → i < l.slot_capacity → flags_at buf l i ≡ empty
  unfolding slot_at
  zero_flags i lt = zero_u32 (slot_base l i + 16) (omega arith) (omega arith)

  zero_count : (n : ℕ) → n ≤ l.slot_capacity → count_filled buf l n ≡ 0
  unfolding count_filled
  zero_count zero h = refl
  zero_count (suc n) h = rw (zero_count n (omega arith), zero_flags n (omega arith))

  pub no_used : (i : ℕ) → i < l.slot_capacity → flags_at buf l i ≢ occupied
  no_used i lt on = let off = zero_flags i lt in absurd (omega arith)

module _ (hash : List ℕ → ℕ) (l : SegmentLayout) (lay : IsLayout l) (pow : SlotsPow2 l) where
  -- A new zeroed segment is well-formed after `initialize_segment_regions`, and `lookup` returns
  -- None for every non-empty id.
  pub initialize_segment_regions-IsSegment :
      (buf : Memory)
      → ZeroTable l buf
      → IsSegment hash (initialize_segment_regions buf l) l
        × ((c : ℕ) (cs : List ℕ)
            → lookup hash (initialize_segment_regions buf l) l (c ∷ cs) ≡ ok none)
  initialize_segment_regions-IsSegment buf zeros =
      let made = fresh l lay buf in
      let table = fresh-ZeroTable l lay buf zeros in
      let none_used = no_used l lay made table in
      let next_none : next_row made ≡ 0 = ap (λ (t : ℕ × ℕ). t.0) (fresh_metadata l lay buf) in
      let cursor_none : pool_cursor made ≡ 0 = ap (λ (t : ℕ × ℕ). t.1) (fresh_metadata l lay buf) in
      let inv : IsSegment hash made l = record {
        layout = lay;
        pow = pow;
        rows_left = omega (arith, next_none);
        pool_left = omega (arith, cursor_none);
        flags_known = λ i lt. inl (zero_flags l lay made table i lt);
        slots = λ i lt on. absurd (none_used i lt on);
        unique_id = λ i j li lj oi oj e. absurd (none_used i li oi);
        unique_row = λ i j li lj oi oj e. absurd (none_used i li oi);
        counted = rw (zero_count l lay made table l.slot_capacity (omega arith)) (omega arith);
      } in
      (inv, λ c cs. (lookup_view hash inv c cs).1 (λ i lt on. absurd (none_used i lt on)))
