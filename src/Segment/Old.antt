-- ===== src/Segment/Old.antt =====
-- The bytes of the slots other than one, and of the string pool below the cursor.
use quorin.Base.{
  ℕ, ◌+◌, ◌*◌, ◌≤◌, ◌<◌, ◌≡◌, ◌≢◌, ◌⊎◌, refl, subst, ◌∙◌, ap, arith, List, [], ◌∷◌, take, length,
  All, inl, inr,
}
use native.Mathlib.Decide.{dec_lt}
use quorin.Memory.{Memory, read_bytes, write_bytes, read_u32, read_u64, from_le}
use quorin.Memory.Frame.{write_bytes-outside, read_bytes_congr, length-le_bytes}
use quorin.Layout.{SegmentLayout}
use quorin.Layout.Regions.{IsLayout}
use quorin.Segment.{
  slot_at, read_string_bytes, occupied, slot_base, Write, apply_writes, insert_writes,
}
use quorin.Segment.Slots.{flags_at, stored_len, stored_id, entry_address, pool_cursor, IsSegment}

abbrev pub IsOld : SegmentLayout → ℕ → ℕ → ℕ → Type 0
IsOld l idx cursor a =
    ((64 ≤ a) × (a < 64 + l.slot_capacity * 24) × ((a < 64 + idx * 24) ⊎ (64 + idx * 24 + 24 ≤ a)))
    ⊎ ((l.string_pool_data_offset ≤ a) × (a < l.string_pool_data_offset + cursor))

-- The four bytes of the flags of slot `idx`
abbrev pub IsFlag : ℕ → ℕ → Type 0
IsFlag idx a = (64 + idx * 24 + 16 ≤ a) × (a < 64 + idx * 24 + 20)

-- A write misses a set of addresses.
abbrev pub Misses : (ℕ → Type 0) → Write → Type 0
Misses P w = (b : ℕ) → P b → (b < w.0) ⊎ (w.0 + length w.1 ≤ b)

pub apply_writes-Misses :
    (P : ℕ → Type 0) (ws : List Write) (buf : Memory)
    → All (Misses P) ws
    → (b : ℕ) → P b
    → apply_writes buf ws b ≡ buf b
unfolding apply_writes
apply_writes-Misses P [] buf h b p = refl
apply_writes-Misses P (w ∷ ws) buf h b p =
    apply_writes-Misses P ws (write_bytes buf w.0 w.1) h.1 b p
    ∙ write_bytes-outside buf w.0 w.1 b (h.0 b p)

module _ (l : SegmentLayout) (lay : IsLayout l) (idx cursor h next : ℕ) (id row : List ℕ)
    (lt : idx < l.slot_capacity) (room : cursor ≤ l.string_pool_data_bytes) where
  -- The writes of an insert miss the old slots and ids; only the last one meets the flags.
  pub insert_writes-IsOld :
      All (Misses (IsOld l idx cursor)) (insert_writes l idx h id row next cursor)
  unfolding insert_writes
  insert_writes-IsOld = omega (arith, length-le_bytes)

  pub insert_writes-IsFlag :
      All (Misses (IsFlag idx)) (take 8 (insert_writes l idx h id row next cursor))
  unfolding insert_writes
  insert_writes-IsFlag = omega (arith, length-le_bytes)

slot-IsOld :
    (l : SegmentLayout) (idx cursor i b : ℕ)
    → i < l.slot_capacity
    → l.slot_table_offset ≡ 64
    → slot_base l i ≤ b
    → b < slot_base l i + 24
    → i ≢ idx
    → IsOld l idx cursor b
slot-IsOld l idx cursor i b lt base p q h = elim (dec_lt i idx) [
  | yes below ↦ inl (omega arith, omega arith, inl (omega arith))
  | no not_below ↦ inl (omega arith, omega arith, inr (omega arith))
]

module _ (hash : List ℕ → ℕ) {l : SegmentLayout} {buf : Memory} (inv : IsSegment hash buf l)
    {buf' : Memory} (idx : ℕ)
    (same : (b : ℕ) → IsOld l idx (pool_cursor buf) b → buf' b ≡ buf b) where
  read_old :
      (a n : ℕ)
      → ((b : ℕ) → a ≤ b → b < a + n → IsOld l idx (pool_cursor buf) b)
      → read_bytes buf' a n ≡ read_bytes buf a n
  read_old a n h = read_bytes_congr buf' buf a n (λ b p q. same b (h b p q))

  slot_bytes_old :
      (i k n : ℕ)
      → i < l.slot_capacity
      → i ≢ idx
      → k + n ≤ 24
      → read_bytes buf' (slot_base l i + k) n ≡ read_bytes buf (slot_base l i + k) n
  slot_bytes_old i k n lt ne h = read_old (slot_base l i + k) n (λ b p q.
      slot-IsOld l idx (pool_cursor buf) i b lt inv.layout.slot_table (omega arith) (omega arith)
        ne)

  pub slot_old : (i : ℕ) → i < l.slot_capacity → i ≢ idx → slot_at buf' l i ≡ slot_at buf l i
  unfolding slot_at read_u64 read_u32
  slot_old i lt ne =
      let same_at = λ (k n : ℕ) (h : k + n ≤ 24). ap from_le (slot_bytes_old i k n lt ne h) in
      let e : slot_base l i + 0 ≡ slot_base l i = omega arith in
      let home = subst (λ a. read_u64 buf' a ≡ read_u64 buf a) e (same_at 0 8 (omega arith)) in
      λ t. record {
        name_hash = home t;
        id_offset = same_at 8 8 (omega arith) t;
        flags = same_at 16 4 (omega arith) t;
        feature_row_index = same_at 20 4 (omega arith) t;
      }

  module _ (i : ℕ) (lt : i < l.slot_capacity) (on : flags_at buf l i ≡ occupied) where
    entry_len_old : read_u32 buf' (entry_address buf l i) ≡ stored_len buf l i
    unfolding read_u32
    entry_len_old =
        let fits = (inv.slots i lt on).fits in
        ap from_le
          (read_old (entry_address buf l i) 4 (λ b p q. inr (omega arith, omega (arith, fits))))

    entry_id_old :
        read_bytes buf' (entry_address buf l i + 4) (stored_len buf l i) ≡ stored_id buf l i
    entry_id_old =
        let fits = (inv.slots i lt on).fits in
        read_old (entry_address buf l i + 4) (stored_len buf l i)
          (λ b p q. inr (omega arith, omega (arith, fits)))

    pub string_old :
        read_string_bytes buf' l (slot_at buf l i).id_offset
        ≡ read_string_bytes buf l (slot_at buf l i).id_offset
    unfolding read_string_bytes
    string_old = rw (entry_len_old, entry_id_old) refl

    pub stored_len_old :
        slot_at buf' l i ≡ slot_at buf l i → stored_len buf' l i ≡ stored_len buf l i
    stored_len_old e = rw (e, entry_len_old) refl

    pub stored_id_old : slot_at buf' l i ≡ slot_at buf l i → stored_id buf' l i ≡ stored_id buf l i
    stored_id_old e = rw (e, entry_len_old, entry_id_old) refl
