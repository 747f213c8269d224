-- ===== src/LookupKernel.antt =====
-- quorin/_internal/lookup_kernel.py: `_lookup_core` and `lookup_jit`. The -1 that the kernel
-- returns on a miss is `none`; `hash` is `blake2b_8`, the digest that `hash_entity_id` computes.
pub mod Parity
pub mod Mapped
mod Tests
use quorin.Base.{
  ℕ, zero, suc, ◌+◌, ◌-◌, ◌*◌, Bool, true, false, ◌&&◌, Option, none, some, List, [], ◌∷◌, ltb,
  ◌==◌, bit_and, length, if◌then◌else◌,
}
use quorin.Result.{Result, ok, value_error, ◌>>◌, raise_if}
use quorin.Memory.{Memory, read_u32}
use quorin.Schema.{is_empty}
use quorin.Layout.{SegmentLayout, len_prefix_bytes}
use quorin.Segment.{slot_at, empty, occupied, matches, row_offset}

-- `for k in range(encoded_id_len): if seg_u8[a + k] != encoded_id[k]: match = False; break`
unfoldable pub bytes_match : Memory → ℕ → List ℕ → Bool
bytes_match buf a [] = true
bytes_match buf a (b ∷ bs) = if buf a == b then bytes_match buf (suc a) bs else false

-- The probe loop, for the rounds that are left
unfoldable pub lookup_core : Memory → SegmentLayout → ℕ → List ℕ → ℕ → ℕ → Option ℕ
unfolding bytes_match
lookup_core buf l h encoded zero idx = none
lookup_core buf l h encoded (suc rounds) idx =
    let slot = slot_at buf l idx in
    let pool_entry = l.string_pool_data_offset + slot.id_offset in
    let pool_len = read_u32 buf pool_entry in
    let rest = lookup_core buf l h encoded rounds (bit_and (idx + 1) (l.slot_capacity - 1)) in
    if slot.flags == empty
    then none
    else if matches slot h
    then (if ltb l.max_id_bytes pool_len
        then none
        else if (pool_len == length encoded)
            && bytes_match buf (pool_entry + len_prefix_bytes) encoded
        then some (row_offset buf l idx)
        else rest)
    else rest

module _ (hash : List ℕ → ℕ) where
  unfoldable pub lookup_jit : Memory → SegmentLayout → List ℕ → Result (Option ℕ)
  lookup_jit buf l id = do
    raise_if (is_empty id) value_error
    ok (lookup_core buf l (hash id) id l.slot_capacity (bit_and (hash id) (l.slot_capacity - 1)))
