-- ===== src/LookupKernel/Tests.antt =====
-- The kernel on a segment with one slot in use, whose pool entry is corrupt: its length is 5000.
use quorin.Base.{
  subst, sym, ℕ, zero, suc, ◌+◌, ◌≤◌, ◌<◌, ◌≡◌, refl, arith, [], ◌∷◌, ◌++◌, ltb, if◌then◌else◌,
}
use quorin.Result.{ok, err, value_error}
use quorin.Align.{align_up, next_pow2, bit_length}
use quorin.Memory.{Memory, read_bytes, read_u32, read_u64, from_le, write_bytes, le_bytes}
use quorin.Memory.Frame.{SameOn}
use quorin.Layout.{derive_layout}
use quorin.Layout.Regions.{SlotsPow2}
use quorin.Layout.Tests.{toy_hash, small}
use quorin.Segment.{slot_at, slot_base, probe, read_string_bytes, lookup}
use quorin.Segment.Tests.{user, zeroed}
use quorin.LookupKernel.{lookup_jit}
use quorin.LookupKernel.Parity.{found_or_none}
use quorin.LookupKernel.Mapped.{IsMapped, lookup_jit-lookup_mapped}

-- The hash of the id leads to slot 1, whose entry is at the start of the pool data.
abbrev corrupt : Memory
corrupt =
    write_bytes
      (write_bytes zeroed (slot_base small 1)
        (le_bytes 8 (toy_hash user) ++ le_bytes 8 0 ++ le_bytes 4 1 ++ le_bytes 4 0))
      small.string_pool_data_offset (le_bytes 4 5000)

-- Behind the mapping lies something else.
abbrev beyond : Memory
beyond a = if ltb a small.total_size then corrupt a else 7

beyond-SameOn : SameOn beyond corrupt 0 small.total_size
beyond-SameOn = record { same = λ i lo hi. ground arith }

four_slots : SlotsPow2 small
unfolding derive_layout next_pow2 bit_length
four_slots = (2, refl)

corrupt_offset : (j : ℕ) → j < 4 → (slot_at corrupt small j).id_offset ≡ 0
unfolding slot_at read_u64 read_bytes from_le write_bytes le_bytes derive_layout next_pow2
    bit_length align_up
corrupt_offset zero lt = refl
corrupt_offset (suc zero) lt = refl
corrupt_offset (suc (suc zero)) lt = refl
corrupt_offset (suc (suc (suc zero))) lt = refl
corrupt_offset (suc (suc (suc (suc j)))) lt = absurd (omega arith)

corrupt_length :
    (offset : ℕ) → offset ≡ 0 → read_u32 corrupt (small.string_pool_data_offset + offset) ≡ 5000
unfolding read_u32 read_bytes from_le write_bytes le_bytes derive_layout next_pow2 bit_length
    align_up
corrupt_length offset e =
    subst (λ o. read_u32 corrupt (small.string_pool_data_offset + o) ≡ 5000) (sym e) refl

corrupt_raises : lookup toy_hash corrupt small user ≡ err value_error
unfolding lookup probe read_string_bytes slot_at read_u32 read_u64 read_bytes from_le write_bytes
    le_bytes derive_layout next_pow2 bit_length align_up
corrupt_raises = refl

too_long : (n : ℕ) → n ≡ 5000 → n ≤ small.max_id_bytes → ⊥
unfolding derive_layout
too_long n e h = omega arith

corrupt-IsMapped : IsMapped corrupt small small.total_size
unfolding derive_layout next_pow2 bit_length align_up
corrupt-IsMapped = record {
  slots = omega arith;
  entries = λ j lt on. rw (corrupt_offset j lt) (omega arith);
  strings = λ j lt on short. absurd (
      too_long
        (read_u32 corrupt (small.string_pool_data_offset + (slot_at corrupt small j).id_offset))
        (corrupt_length (slot_at corrupt small j).id_offset (corrupt_offset j lt)) short);
}

lookup_jit-lookup_mapped_example :
    lookup_jit toy_hash beyond small user ≡ ok (found_or_none (lookup toy_hash corrupt small user))
lookup_jit-lookup_mapped_example =
    lookup_jit-lookup_mapped toy_hash four_slots corrupt-IsMapped beyond-SameOn b'u' (b'1' ∷ [])
