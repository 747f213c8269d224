-- ===== src/LookupKernel/Mapped.antt =====
-- The kernel reads inside the mapping of the segment, whose size the model of the memory does not know.
use quorin.Base.{
  subst, ℕ, zero, suc, ◌+◌, ◌-◌, ◌*◌, ◌≤◌, ◌<◌, ◌≡◌, refl, sym, ◌∙◌, ap, arith, Bool-cases, inl,
  inr, ◌==◌, ==→eq, List, [], ◌∷◌, ltb, bit_and, bit_and_mask, length, pow_pos,
}
use native.Mathlib.Nat.{mod-lt}
use quorin.Result.{ok}
use quorin.Memory.{Memory, from_le, read_u32, read_u64}
use quorin.Memory.Frame.{SameOn, read_bytes-SameOn}
use quorin.Layout.{SegmentLayout, slot_bytes, len_prefix_bytes}
use quorin.Layout.Regions.{SlotsPow2}
use quorin.Segment.{slot_base, slot_at, occupied, lookup}
use quorin.LookupKernel.{bytes_match, lookup_core, lookup_jit}
use quorin.LookupKernel.Parity.{found_or_none, lookup_jit_lem}

-- The slot table, and the pool entry of each slot in use, lie in a mapping of the size; an entry longer than
-- max_id_bytes, which is corrupt, only with its length.
pub record IsMapped (buf : Memory) (l : SegmentLayout) (size : ℕ) : Type 0 where
  pub slots : l.slot_table_offset + l.slot_capacity * slot_bytes ≤ size
  pub entries :
      (j : ℕ)
      → j < l.slot_capacity
      → (slot_at buf l j).flags ≡ occupied
      → l.string_pool_data_offset + (slot_at buf l j).id_offset + len_prefix_bytes ≤ size
  pub strings :
      (j : ℕ)
      → j < l.slot_capacity
      → (slot_at buf l j).flags ≡ occupied
      → read_u32 buf (l.string_pool_data_offset + (slot_at buf l j).id_offset) ≤ l.max_id_bytes
      → l.string_pool_data_offset
          + (slot_at buf l j).id_offset
          + len_prefix_bytes
          + read_u32 buf (l.string_pool_data_offset + (slot_at buf l j).id_offset)
        ≤ size

module _ {m n : Memory} {size : ℕ} (same : SameOn m n 0 size) where
  read_u32_same : (a : ℕ) → a + 4 ≤ size → read_u32 m a ≡ read_u32 n a
  unfolding read_u32
  read_u32_same a h = ap from_le (read_bytes-SameOn a 4 same (omega arith) h)

  read_u64_same : (a : ℕ) → a + 8 ≤ size → read_u64 m a ≡ read_u64 n a
  unfolding read_u64
  read_u64_same a h = ap from_le (read_bytes-SameOn a 8 same (omega arith) h)

  bytes_match_same :
      (a : ℕ) (bs : List ℕ) → a + length bs ≤ size → bytes_match m a bs ≡ bytes_match n a bs
  unfolding bytes_match
  bytes_match_same a [] h = refl
  bytes_match_same a (b ∷ bs) h =
      rw (same.same a (omega arith) (omega arith), bytes_match_same (suc a) bs (omega arith)) refl

  slot_at_same :
      (l : SegmentLayout) (j : ℕ)
      → slot_base l j + slot_bytes ≤ size
      → slot_at m l j ≡ slot_at n l j
  unfolding slot_at
  slot_at_same l j h =
      rw
        (
          read_u64_same (slot_base l j) (omega arith),
          read_u64_same (slot_base l j + 8) (omega arith),
          read_u32_same (slot_base l j + 16) (omega arith),
          read_u32_same (slot_base l j + 20) (omega arith),
        )
        refl

mask_below :
    (l : SegmentLayout) → SlotsPow2 l → (x : ℕ) → bit_and x (l.slot_capacity - 1) < l.slot_capacity
mask_below l (k, e) x =
    subst (λ cap. bit_and x (cap - 1) < cap) (sym e) (rw (bit_and_mask x k) (mod-lt x (pow_pos k)))

slot_inside : (base cap j size : ℕ) → base + cap * 24 ≤ size → j < cap → base + j * 24 + 24 ≤ size
slot_inside base cap j size h lt = omega arith

module _ {m buf : Memory} {size : ℕ} (same : SameOn m buf 0 size) {l : SegmentLayout}
    (pow : SlotsPow2 l) (mapped : IsMapped buf l size) where
  lookup_core_same :
      (h : ℕ) (id : List ℕ) (rounds idx : ℕ)
      → idx < l.slot_capacity
      → lookup_core m l h id rounds idx ≡ lookup_core buf l h id rounds idx
  unfolding lookup_core
  lookup_core_same h id zero idx lt = refl
  lookup_core_same h id (suc rounds) idx lt =
      let slot = slot_at buf l idx in
      let entry = l.string_pool_data_offset + slot.id_offset in
      let next = bit_and (idx + 1) (l.slot_capacity - 1) in
      let here =
        slot_at_same same l idx
          (slot_inside l.slot_table_offset l.slot_capacity idx size mapped.slots lt) in
      let rest = lookup_core_same h id rounds next (mask_below l pow (idx + 1)) in
      elim (Bool-cases (slot.flags == occupied)) [
        | inr n ↦ rw (here, rest) (ground (arith, n))
        | inl y ↦
            let used = ==→eq slot.flags occupied y in
            let length_same = read_u32_same same entry (mapped.entries idx lt used) in
            elim (Bool-cases (ltb l.max_id_bytes (read_u32 buf entry))) [
              | inl long ↦ rw (here, rest, length_same) (ground (arith, long, used))
              | inr short ↦ elim (Bool-cases (read_u32 buf entry == length id)) [
                | inr differ ↦ rw (here, rest, length_same) (ground (arith, short, differ, used))
                | inl agree ↦
                    let size_ok = mapped.strings idx lt used (ground (arith, short)) in
                    let sized = ==→eq (read_u32 buf entry) (length id) agree in
                    let bytes = bytes_match_same same (entry + len_prefix_bytes) id (omega arith) in
                    rw (here, rest, length_same, bytes) refl
              ]
            ]
      ]

-- If the slot table and the pool entries of the slots in use lie in the mapping, of which a corrupt entry,
-- longer than max_id_bytes, need not: whatever lies behind the mapping, `lookup_jit` of a non-empty
-- id returns what `lookup` returns on the bytes of the mapping, and None where it raises.
pub lookup_jit-lookup_mapped :
    (hash : List ℕ → ℕ) {m buf : Memory} {l : SegmentLayout} {size : ℕ}
    → SlotsPow2 l
    → IsMapped buf l size
    → SameOn m buf 0 size
    → (c : ℕ) (cs : List ℕ)
    → lookup_jit hash m l (c ∷ cs) ≡ ok (found_or_none (lookup hash buf l (c ∷ cs)))
unfolding lookup_jit
lookup_jit-lookup_mapped hash {m} {buf} {l} pow mapped same c cs =
    ap ok (
      lookup_core_same same pow mapped (hash (c ∷ cs)) (c ∷ cs) l.slot_capacity
        (bit_and (hash (c ∷ cs)) (l.slot_capacity - 1)) (mask_below l pow (hash (c ∷ cs))))
    ∙ lookup_jit_lem hash buf l c cs
