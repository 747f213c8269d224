-- ===== src/Segment/Stable.antt =====
-- Changes of the bytes that no reader can see.
use quorin.Base.{
  ℕ, zero, suc, ◌+◌, ◌-◌, ◌<◌, ◌≡◌, ◌≢◌, refl, ap, arith, List, Option, none, some, ◌==◌, bytes_eq,
  Bool-cases, inl, inr, ==→eq, ==→ne, bit_and, if◌then◌else◌,
}
use native.Mathlib.Nat.{mod-lt}
use quorin.Result.{Result, ok, value_error, ◌>>=◌, ◌>>◌, raise_if}
use quorin.Memory.{Memory}
use quorin.Schema.{is_empty}
use quorin.Layout.{SegmentLayout}
use quorin.Layout.Regions.{SlotsPow2}
use quorin.Segment.{
  slot_at, Slot, read_string_bytes, probe, matches, empty, occupied, row_offset, lookup_result,
  lookup,
}
use quorin.Segment.Slots.{flags_at, masked, slots_pos}

-- Two memories show a reader the same slots and the same ids.
pub record SameView (l : SegmentLayout) (buf' buf : Memory) : Type 0 where
  pub flags : (i : ℕ) → i < l.slot_capacity → flags_at buf' l i ≡ flags_at buf l i
  pub slot :
      (i : ℕ)
      → i < l.slot_capacity
      → flags_at buf l i ≡ occupied
      → slot_at buf' l i ≡ slot_at buf l i
  pub string :
      (i : ℕ)
      → i < l.slot_capacity
      → flags_at buf l i ≡ occupied
      → read_string_bytes buf' l (slot_at buf l i).id_offset
        ≡ read_string_bytes buf l (slot_at buf l i).id_offset

-- One round of the loop in `lookup`: the slot, its id, its row, and the rounds after it
step : ℕ → List ℕ → Slot → Result (List ℕ) → ℕ → Result (Option ℕ) → Result (Option ℕ)
step h id s str off rest =
    if s.flags == empty
    then ok none
    else if matches s h
    then (do stored ← str; if bytes_eq stored id then ok (some off) else rest)
    else rest

module _ (l : SegmentLayout) (h : ℕ) (id : List ℕ) where
  abbrev outcome : Memory → ℕ → ℕ → Result (Option ℕ)
  outcome b r i = do p ← probe b l h id r i; ok (lookup_result b l p)

  outcome-step :
      (b : Memory) (r i : ℕ)
      → outcome b (suc r) i
        ≡ step h id
            (slot_at b l i)
            (read_string_bytes b l (slot_at b l i).id_offset)
            (row_offset b l i)
            (outcome b r (bit_and (i + 1) (l.slot_capacity - 1)))
  unfolding probe step
  outcome-step b r i = ground arith

step_off :
    (h : ℕ) (id : List ℕ) (s t : Slot) (a b : Result (List ℕ)) (x y : ℕ) (rest : Result (Option ℕ))
    → s.flags ≡ t.flags
    → t.flags ≢ occupied
    → step h id s a x rest ≡ step h id t b y rest
unfolding step
step_off h id s t a b x y rest e off = ground arith

module _ {l : SegmentLayout} {buf' buf : Memory} (pow : SlotsPow2 l) (v : SameView l buf' buf) where
  outcome-SameView :
      (h : ℕ) (id : List ℕ) (r i : ℕ)
      → i < l.slot_capacity
      → outcome l h id buf' r i ≡ outcome l h id buf r i
  unfolding probe
  outcome-SameView h id zero i lt = refl
  outcome-SameView h id (suc r) i lt =
      let next = bit_and (i + 1) (l.slot_capacity - 1) in
      let ih =
        outcome-SameView h id r next (rw (masked l pow) (mod-lt (i + 1) (slots_pos l pow))) in
      rw (outcome-step l h id buf' r i, outcome-step l h id buf r i, ih)
        (elim (Bool-cases (flags_at buf l i == occupied)) [
          | inl y ↦
              let on = ==→eq _ occupied y in
              let same = v.slot i lt on in rw (same, v.string i lt on) refl
          | inr n ↦ step_off h id _ _ _ _ _ _ _ (v.flags i lt) (==→ne _ occupied n)
        ])

  -- `lookup` returns or raises the same in both memories.
  pub lookup-SameView :
      (hash : List ℕ → ℕ) (id : List ℕ) → lookup hash buf' l id ≡ lookup hash buf l id
  unfolding lookup
  lookup-SameView hash id =
      let start = bit_and (hash id) (l.slot_capacity - 1) in
      ap (λ rest. raise_if (is_empty id) value_error >> rest)
        (outcome-SameView (hash id) id l.slot_capacity start
          (rw (masked l pow) (mod-lt (hash id) (slots_pos l pow))))
