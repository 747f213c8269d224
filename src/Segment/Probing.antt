-- ===== src/Segment/Probing.antt =====
-- Where the probe loop stops, in a well-formed segment.
use quorin.Base.{
  ℕ, zero, suc, ◌+◌, ◌%◌, ◌<◌, ◌≡◌, ◌≢◌, ◌⊎◌, sym, ◌∙◌, ap, subst, arith, List, ◌==◌, bytes_eq,
  bytes_eq_self, bytes_eq→eq, bytes_ne, below_suc, Bool-cases, inl, inr, ==→eq, ==→ne,
}
use quorin.Result.{Result, ok}
use quorin.Memory.{Memory}
use quorin.Layout.{SegmentLayout}
use quorin.Segment.{
  slot_at, read_string_bytes, Probe, vacant, found, probe, empty, occupied, start_probe,
}
use quorin.Segment.Slots.{
  flags_at, stored_id, probed, IsSlot, IsSegment, masked, probed-lt, probed_step, reach_any,
  vacant_slot, count_filled,
}

occupied_of : {f : ℕ} → f ≢ empty → (f ≡ empty) ⊎ (f ≡ occupied) → f ≡ occupied
occupied_of used (inl e) = absurd (used e)
occupied_of used (inr e) = e

-- At most half of the slots are in use.
room :
    (hash : List ℕ → ℕ) {buf : Memory} {l : SegmentLayout}
    → IsSegment hash buf l
    → count_filled buf l l.slot_capacity < l.slot_capacity
room hash {buf} {l} inv =
    omega (arith, inv.counted, inv.rows_left, inv.layout.capacity_pos, inv.layout.slots_double)

module _ (hash : List ℕ → ℕ) {buf : Memory} {l : SegmentLayout} (inv : IsSegment hash buf l) where
  -- Reading the id of a slot in use raises nothing.
  pub read_stored :
      (i : ℕ)
      → i < l.slot_capacity
      → flags_at buf l i ≡ occupied
      → read_string_bytes buf l (slot_at buf l i).id_offset ≡ ok (stored_id buf l i)
  unfolding read_string_bytes
  read_stored i lt used = ground (arith, (inv.slots i lt used).short)

  module _ (id : List ℕ) where
    abbrev run : ℕ → ℕ → Result Probe
    run r k = probe buf l (hash id) id r (probed l (hash id) k)

    probe_vacant :
        (r k : ℕ)
        → flags_at buf l (probed l (hash id) k) ≡ empty
        → run (suc r) k ≡ ok (vacant (probed l (hash id) k))
    unfolding probe
    probe_vacant r k e = ground arith

    probe_skip :
        (r k : ℕ)
        → flags_at buf l (probed l (hash id) k) ≢ empty
        → stored_id buf l (probed l (hash id) k) ≢ id
        → run (suc r) k ≡ run r (k + 1)
    unfolding probe
    probe_skip r k used other =
        let i = probed l (hash id) k in
        let lt = probed-lt l inv.pow (hash id) k in
        elim (inv.flags_known i lt) [
          | inl e ↦ absurd (used e)
          | inr on ↦ ground (
            arith,
            read_stored i lt on,
            probed_step l inv.pow (hash id) k,
            bytes_eq→eq (stored_id buf l i) id,
          )
        ]

    probe_hit :
        (r k : ℕ)
        → flags_at buf l (probed l (hash id) k) ≡ occupied
        → stored_id buf l (probed l (hash id) k) ≡ id
        → run (suc r) k ≡ ok (found (probed l (hash id) k))
    unfolding probe
    probe_hit r k used same =
        let i = probed l (hash id) k in
        let slot = inv.slots i (probed-lt l inv.pow (hash id) k) used in
        let read = read_stored i (probed-lt l inv.pow (hash id) k) used in
        ground (arith, read, slot.hashed, ap hash same, bytes_eq_self id)

    -- Round 0 is at the home slot.
    start_zero : (r : ℕ) → probe buf l (hash id) id r (hash id % l.slot_capacity) ≡ run r 0
    start_zero r = let e : hash id + 0 ≡ hash id = omega arith in rw e

    -- A round at which the loop stands on the slot `j` of the id stops there.
    hit_at :
        (r k j : ℕ)
        → probed l (hash id) k ≡ j
        → flags_at buf l j ≡ occupied
        → stored_id buf l j ≡ id
        → run (suc r) k ≡ ok (found j)
    hit_at r k j e on same = probe_hit r k (rw e on) (rw e same) ∙ ap (λ i. ok (found i)) e

    -- The loop finds the slot of a stored id.
    found_from :
        (j : ℕ)
        → j < l.slot_capacity
        → flags_at buf l j ≡ occupied
        → stored_id buf l j ≡ id
        → (d k r : ℕ) → (s : IsSlot hash buf l j) → k + d ≡ s.distance
        → d < r
        → run r k ≡ ok (found j)
    found_from j lt on same d k zero s e h = absurd (omega arith)
    found_from j lt on same zero k (suc r) s e h =
        let at : s.distance ≡ k = omega arith in
        hit_at r k j
          (subst (λ t. probed l (hash t) k ≡ j) same
            (subst (λ t. probed l (hash (stored_id buf l j)) t ≡ j) at s.reached))
          on same
    found_from j lt on same (suc d) k (suc r) s e h =
        let i = probed l (hash id) k in
        let i_lt = probed-lt l inv.pow (hash id) k in
        let used : flags_at buf l i ≢ empty =
          subst (λ t. flags_at buf l (probed l (hash t) k) ≢ empty) same
            (s.filled k (omega arith)) in
        elim (inv.flags_known i i_lt) [
          | inl free ↦ absurd (used free)
          | inr on' ↦ elim (Bool-cases (bytes_eq (stored_id buf l i) id)) [
            | inl y ↦
                let mine : stored_id buf l i ≡ id = bytes_eq→eq _ _ y in
                hit_at r k j (inv.unique_id i j i_lt lt on' on (mine ∙ sym same)) on same
            | inr n ↦
                probe_skip r k used (bytes_ne (stored_id buf l i) id n)
                ∙ found_from j lt on same d (k + 1) r s (omega arith) (omega arith)
          ]
        ]

    pub probe-found :
        (j : ℕ)
        → j < l.slot_capacity
        → flags_at buf l j ≡ occupied
        → stored_id buf l j ≡ id
        → start_probe hash buf l id ≡ ok (found j)
    probe-found j lt on same =
        let s = inv.slots j lt on in
        rw (masked l inv.pow (hash id)) (
          start_zero l.slot_capacity
          ∙ found_from j lt on same s.distance 0 l.slot_capacity s (omega arith) s.near)

    -- No slot in use holds the id.
    abbrev pub Absent : Type 0
    Absent = (j : ℕ) → j < l.slot_capacity → flags_at buf l j ≡ occupied → stored_id buf l j ≢ id

    -- Round `k` meets an empty slot, and no round before it does.
    pub record FirstVacant (k : ℕ) : Type 0 where
      pub near : k < l.slot_capacity
      pub vacant_here : flags_at buf l (probed l (hash id) k) ≡ empty
      pub filled_before : (m : ℕ) → m < k → flags_at buf l (probed l (hash id) m) ≢ empty

    vacant_from :
        Absent
        → (e : ℕ) → e < l.slot_capacity
        → flags_at buf l (probed l (hash id) e) ≡ empty
        → (d k r : ℕ) → k + d ≡ e
        → d < r
        → ((m : ℕ) → m < k → flags_at buf l (probed l (hash id) m) ≢ empty)
        → (v : ℕ) × (run r k ≡ ok (vacant (probed l (hash id) v))) × FirstVacant v
    vacant_from absent e lt free d k zero eq h before = absurd (omega arith)
    vacant_from absent e lt free zero k (suc r) eq h before =
        let at : e ≡ k = omega arith in
        let here : flags_at buf l (probed l (hash id) k) ≡ empty =
          subst (λ t. flags_at buf l (probed l (hash id) t) ≡ empty) at free in
        (
          k,
          probe_vacant r k here,
          record { near = omega arith; vacant_here = here; filled_before = before },
        )
    vacant_from absent e lt free (suc d) k (suc r) eq h before =
        elim (Bool-cases (flags_at buf l (probed l (hash id) k) == empty)) [
          | inl y ↦
              let here = ==→eq _ empty y in
              (
                k,
                probe_vacant r k here,
                record { near = omega arith; vacant_here = here; filled_before = before },
              )
          | inr n ↦
              let used = ==→ne _ empty n in
              let k_lt = probed-lt l inv.pow (hash id) k in
              let on : flags_at buf l (probed l (hash id) k) ≡ occupied =
                occupied_of used (inv.flags_known _ k_lt) in
              let skip = probe_skip r k used (absent _ k_lt on) in
              let (v, run_v, first) =
                vacant_from absent e lt free d (k + 1) r (omega arith) (omega arith) (λ m lt.
                  below_suc (λ t. flags_at buf l (probed l (hash id) t) ≢ empty) k before used m
                    (omega arith)) in
              (v, skip ∙ run_v, first)
        ]

    -- The slot that `start_probe` stops at for an id that is not stored
    pub probe-absent :
        Absent
        → (v : ℕ) × (start_probe hash buf l id ≡ ok (vacant (probed l (hash id) v))) × FirstVacant v
    probe-absent absent =
        let (i, i_lt, free) = vacant_slot buf l l.slot_capacity (room hash inv) in
        let (e, e_lt, at) = reach_any l inv.pow (hash id) i i_lt in
        let (v, run_v, first) =
          vacant_from absent e e_lt (rw at free) e 0 l.slot_capacity (omega arith) e_lt
            (λ m lt. absurd (omega arith)) in
        (v, rw (masked l inv.pow (hash id)) (start_zero l.slot_capacity ∙ run_v), first)
