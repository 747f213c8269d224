-- ===== src/Segment/Iterate.antt =====
-- `iterate_occupied` and the slots in use.
use quorin.Base.{
  ℕ, zero, suc, ◌+◌, ◌≤◌, ◌<◌, ◌≡◌, refl, ap, arith, ◌&&◌, List, [], ◌∷◌, map, ltb, leb, ◌==◌,
  contains, if◌then◌else◌, Bool-cases, inl, inr, ==→eq, le→ltb,
}
use quorin.Result.{ok}
use quorin.Memory.{Memory}
use quorin.Layout.{SegmentLayout}
use quorin.Segment.{
  slot_at, occupied, read_string_bytes, row_offset, iterate_from, iterate_occupied,
}
use quorin.Segment.Slots.{flags_at, stored_id, stored_len, IsSegment}

-- The slots in use among `n` slots from `idx` on, in order
unfoldable pub used_slots : Memory → SegmentLayout → ℕ → ℕ → List ℕ
used_slots buf l zero idx = []
used_slots buf l (suc n) idx =
    let rest = used_slots buf l n (idx + 1) in
    if flags_at buf l idx == occupied then idx ∷ rest else rest

abbrev pub entity : Memory → SegmentLayout → ℕ → List ℕ × ℕ
entity buf l idx = (stored_id buf l idx, row_offset buf l idx)

contains-used_slots :
    (buf : Memory) (l : SegmentLayout) (n idx j : ℕ)
    → contains j (used_slots buf l n idx)
      ≡ ((leb idx j && ltb j (idx + n)) && (flags_at buf l j == occupied))
unfolding used_slots
contains-used_slots buf l zero idx j = ground arith
contains-used_slots buf l (suc n) idx j =
    let rest = contains-used_slots buf l n (idx + 1) j in
    elim (Bool-cases (j == idx)) [
      | inl y ↦ let same = ==→eq j idx y in let flag = ap (flags_at buf l) same in ground arith
      | inr off ↦ ground arith
    ]

module _ (hash : List ℕ → ℕ) {buf : Memory} {l : SegmentLayout} (inv : IsSegment hash buf l) where
  read_string_bytes-stored_id :
      (i : ℕ)
      → i < l.slot_capacity
      → flags_at buf l i ≡ occupied
      → read_string_bytes buf l (slot_at buf l i).id_offset ≡ ok (stored_id buf l i)
  unfolding read_string_bytes
  read_string_bytes-stored_id i lt on =
      rw (le→ltb l.max_id_bytes (stored_len buf l i) (inv.slots i lt on).short) refl

  iterate_from_lem :
      (n idx : ℕ)
      → idx + n ≤ l.slot_capacity
      → iterate_from buf l n idx ≡ ok (map (entity buf l) (used_slots buf l n idx))
  unfolding iterate_from used_slots
  iterate_from_lem zero idx h = refl
  iterate_from_lem (suc n) idx h =
      let rest = iterate_from_lem n (idx + 1) (omega arith) in
      elim (Bool-cases (flags_at buf l idx == occupied)) [
        | inl y ↦
            rw (y, read_string_bytes-stored_id idx (omega arith) (==→eq _ occupied y), rest) refl
        | inr off ↦ rw off rest
      ]

  -- In a well-formed segment `iterate_occupied` raises nothing, and yields, slot by slot, the id and the
  -- row of every slot in use, and of no other.
  pub iterate_occupied_lem :
      (iterate_occupied buf l ≡ ok (map (entity buf l) (used_slots buf l l.slot_capacity 0)))
      × ((j : ℕ)
          → contains j (used_slots buf l l.slot_capacity 0)
            ≡ (ltb j l.slot_capacity && (flags_at buf l j == occupied)))
  unfolding iterate_occupied
  iterate_occupied_lem = (
    iterate_from_lem l.slot_capacity 0 (omega arith),
    λ j. let all = contains-used_slots buf l l.slot_capacity 0 j in ground arith,
  )
