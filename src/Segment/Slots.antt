-- ===== src/Segment/Slots.antt =====
-- The well-formed segments: what every slot that is in use satisfies.
use native.Mathlib.Nat.{
  mod-add-mod, add_assoc, mod-lt, mod-add-div, add-mul-mod_self_left, mod-eq_of_lt,
}
use native.Mathlib.Decide.{dec_le}
use quorin.Base.{
  ℕ, zero, suc, ◌+◌, ◌-◌, ◌*◌, ◌/◌, ◌%◌, ◌≤◌, ◌<◌, ◌≡◌, ◌≢◌, ◌⊎◌, ◌∙◌, ap, arith, List, bit_and,
  bit_and_mask, ◌==◌, if◌then◌else◌, pow_pos, Bool-cases, inl, inr, ==→eq,
}
use quorin.Memory.{Memory, read_bytes, read_u32}
use quorin.Layout.{SegmentLayout, len_prefix_bytes, read_metadata}
use quorin.Layout.Regions.{IsLayout, SlotsPow2}
use quorin.Segment.{slot_at, empty, occupied}

abbrev pub flags_at : Memory → SegmentLayout → ℕ → ℕ
flags_at buf l i = (slot_at buf l i).flags

abbrev pub entry_address : Memory → SegmentLayout → ℕ → ℕ
entry_address buf l i = l.string_pool_data_offset + (slot_at buf l i).id_offset

abbrev pub stored_len : Memory → SegmentLayout → ℕ → ℕ
stored_len buf l i = read_u32 buf (entry_address buf l i)

-- The id that a slot points to
abbrev pub stored_id : Memory → SegmentLayout → ℕ → List ℕ
stored_id buf l i = read_bytes buf (entry_address buf l i + len_prefix_bytes) (stored_len buf l i)

abbrev pub row_index : Memory → SegmentLayout → ℕ → ℕ
row_index buf l i = (slot_at buf l i).feature_row_index

abbrev pub next_row : Memory → ℕ
next_row buf = (read_metadata buf).0

abbrev pub pool_cursor : Memory → ℕ
pool_cursor buf = (read_metadata buf).1

-- The slot that the probe for a hash reaches in its round `k`
abbrev pub probed : SegmentLayout → ℕ → ℕ → ℕ
probed l h k = (h + k) % l.slot_capacity

-- The slots in use among the first `n`
unfoldable pub count_filled : Memory → SegmentLayout → ℕ → ℕ
count_filled buf l zero = 0
count_filled buf l (suc n) = count_filled buf l n + (if flags_at buf l n == empty then 0 else 1)

-- A slot in use: its pool entry lies below the cursor, its row was handed out, its hash is that
-- of its id, and the probe for this hash reaches it over slots in use.
pub record IsSlot (hash : List ℕ → ℕ) (buf : Memory) (l : SegmentLayout) (i : ℕ) : Type 0 where
  pub fits : (slot_at buf l i).id_offset + len_prefix_bytes + stored_len buf l i ≤ pool_cursor buf
  pub short : stored_len buf l i ≤ l.max_id_bytes
  pub row_used : row_index buf l i < next_row buf
  pub hashed : (slot_at buf l i).name_hash ≡ hash (stored_id buf l i)
  pub distance : ℕ
  pub near : distance < l.slot_capacity
  pub reached : probed l (hash (stored_id buf l i)) distance ≡ i
  pub filled :
      (k : ℕ) → k < distance → flags_at buf l (probed l (hash (stored_id buf l i)) k) ≢ empty

pub record IsSegment (hash : List ℕ → ℕ) (buf : Memory) (l : SegmentLayout) : Type 0 where
  pub layout : IsLayout l
  pub pow : SlotsPow2 l
  pub rows_left : next_row buf ≤ l.capacity
  pub pool_left : pool_cursor buf ≤ l.string_pool_data_bytes
  pub flags_known :
      (i : ℕ) → i < l.slot_capacity → (flags_at buf l i ≡ empty) ⊎ (flags_at buf l i ≡ occupied)
  pub slots : (i : ℕ) → i < l.slot_capacity → flags_at buf l i ≡ occupied → IsSlot hash buf l i
  pub unique_id :
      (i j : ℕ)
      → i < l.slot_capacity
      → j < l.slot_capacity
      → flags_at buf l i ≡ occupied
      → flags_at buf l j ≡ occupied
      → stored_id buf l i ≡ stored_id buf l j
      → i ≡ j
  pub unique_row :
      (i j : ℕ)
      → i < l.slot_capacity
      → j < l.slot_capacity
      → flags_at buf l i ≡ occupied
      → flags_at buf l j ≡ occupied
      → row_index buf l i ≡ row_index buf l j
      → i ≡ j
  pub counted : count_filled buf l l.slot_capacity ≤ next_row buf

module _ (l : SegmentLayout) (pow : SlotsPow2 l) where
  pub masked : (x : ℕ) → bit_and x (l.slot_capacity - 1) ≡ x % l.slot_capacity
  masked x = rw (pow.1) (bit_and_mask x pow.0)

  pub slots_pos : 0 < l.slot_capacity
  slots_pos = rw (pow.1) (pow_pos pow.0)

  pub probed-lt : (h k : ℕ) → probed l h k < l.slot_capacity
  probed-lt h k = mod-lt (h + k) slots_pos

  pub probed_step :
      (h k : ℕ) → bit_and (probed l h k + 1) (l.slot_capacity - 1) ≡ probed l h (k + 1)
  probed_step h k =
      masked (probed l h k + 1)
      ∙ mod-add-mod (h + k) l.slot_capacity 1
      ∙ ap (λ t. t % l.slot_capacity) (add_assoc h k 1)

  -- Every slot is reached by the probe for any hash.
  pub reach_any :
      (h i : ℕ) → i < l.slot_capacity → (k : ℕ) × (k < l.slot_capacity) × (probed l h k ≡ i)
  reach_any h i lt =
      let n = l.slot_capacity in
      let split = mod-add-div h n in
      let r_lt : h % n < n = mod-lt h slots_pos in
      elim (dec_le (h % n) i) [
        | yes le ↦ (i - h % n, omega arith, wrapped (i - h % n) (h / n) i lt (omega (arith, split)))
        | no gt ↦ (
          i + n - h % n,
          omega arith,
          wrapped (i + n - h % n) (h / n + 1) i lt (omega (arith, split)),
        )
      ]
    where
      wrapped :
          (k q i : ℕ) → i < l.slot_capacity → h + k ≡ i + l.slot_capacity * q → probed l h k ≡ i
      wrapped k q i lt e = rw (e, add-mul-mod_self_left i l.slot_capacity q) (mod-eq_of_lt lt)

module _ (buf : Memory) (l : SegmentLayout) where
  -- A table that is not full has an empty slot.
  pub vacant_slot :
      (n : ℕ) → count_filled buf l n < n → (i : ℕ) × (i < n) × (flags_at buf l i ≡ empty)
  unfolding count_filled
  vacant_slot zero h = absurd (omega arith)
  vacant_slot (suc n) h = elim (Bool-cases (flags_at buf l n == empty)) [
    | inl e ↦ (n, omega arith, ==→eq (flags_at buf l n) empty e)
    | inr e ↦ let (i, lt, v) = vacant_slot n (omega (arith, rw e at h)) in (i, omega arith, v)
  ]
