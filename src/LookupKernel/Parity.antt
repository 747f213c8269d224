-- ===== src/LookupKernel/Parity.antt =====
-- The kernel and `lookup` of quorin/layout.py.
use quorin.Base.{
  ℕ, zero, suc, ◌+◌, ◌-◌, ◌≡◌, ◌≢◌, refl, sym, ◌∙◌, ap, arith, false, ◌&&◌, Option, none, List, [],
  ◌∷◌, ◌==◌, bit_and, length, bytes_eq, Bool-cases, inl, inr, ==→eq, ==→ne,
}
use quorin.Result.{Result, ok, err, ◌>>=◌}
use quorin.Memory.{Memory, read_bytes, read_u32}
use quorin.Memory.Frame.{length-read_bytes}
use quorin.Layout.{SegmentLayout, len_prefix_bytes}
use quorin.Segment.{slot_at, read_string_bytes, probe, lookup_result, lookup}
use quorin.Segment.Slots.{IsSegment}
use quorin.Segment.View.{lookup_lem}
use quorin.LookupKernel.{bytes_match, lookup_core, lookup_jit}

bytes_match-bytes_eq :
    (m : Memory) (a : ℕ) (bs : List ℕ)
    → bytes_match m a bs ≡ bytes_eq (read_bytes m a (length bs)) bs
unfolding bytes_match read_bytes
bytes_match-bytes_eq m a [] = refl
bytes_match-bytes_eq m a (b ∷ bs) = ground (arith, bytes_match-bytes_eq m (suc a) bs)

bytes_eq-length : (xs ys : List ℕ) → length xs ≢ length ys → bytes_eq xs ys ≡ false
bytes_eq-length [] [] ne = absurd (ne refl)
bytes_eq-length [] (y ∷ ys) ne = refl
bytes_eq-length (x ∷ xs) [] ne = refl
bytes_eq-length (x ∷ xs) (y ∷ ys) ne = ground (arith, bytes_eq-length xs ys (λ e. ne (ap suc e)))

-- The kernel's test of the stored string is the comparison with the whole string.
pub stored_test :
    (m : Memory) (a n : ℕ) (id : List ℕ)
    → ((n == length id) && bytes_match m a id) ≡ bytes_eq (read_bytes m a n) id
stored_test m a n id = elim (Bool-cases (n == length id)) [
  | inl y ↦ rw (y, ==→eq n (length id) y) (bytes_match-bytes_eq m a id)
  | inr k ↦ rw k (
      sym (
        bytes_eq-length (read_bytes m a n) id
          (λ e. ==→ne n (length id) k (sym (length-read_bytes m a n) ∙ e))))
]

-- A result of `lookup`, with None in place of an exception
pub found_or_none : Result (Option ℕ) → Option ℕ
found_or_none (ok r) = r
found_or_none (err e) = none

lookup_core-probe :
    (buf : Memory) (l : SegmentLayout) (h : ℕ) (id : List ℕ) (rounds idx : ℕ)
    → lookup_core buf l h id rounds idx
      ≡ found_or_none (probe buf l h id rounds idx >>= λ p. ok (lookup_result buf l p))
unfolding lookup_core probe found_or_none read_string_bytes
lookup_core-probe buf l h id zero idx = refl
lookup_core-probe buf l h id (suc rounds) idx =
    let slot = slot_at buf l idx in
    let entry = l.string_pool_data_offset + slot.id_offset in
    let next = bit_and (idx + 1) (l.slot_capacity - 1) in
    rw
      (
        stored_test buf (entry + len_prefix_bytes) (read_u32 buf entry) id,
        lookup_core-probe buf l h id rounds next,
      )
      (ground arith)

-- On any bytes, corrupt ones too, `lookup_jit` of a non-empty id returns what `lookup` returns,
-- and None where `lookup` raises.
pub lookup_jit_lem :
    (hash : List ℕ → ℕ) (buf : Memory) (l : SegmentLayout) (c : ℕ) (cs : List ℕ)
    → lookup_jit hash buf l (c ∷ cs) ≡ ok (found_or_none (lookup hash buf l (c ∷ cs)))
unfolding lookup_jit lookup
lookup_jit_lem hash buf l c cs = ap ok (
    lookup_core-probe buf l (hash (c ∷ cs)) (c ∷ cs) l.slot_capacity
      (bit_and (hash (c ∷ cs)) (l.slot_capacity - 1)))

-- In a well-formed segment `lookup_jit` and `lookup` return or raise the same for every id.
pub lookup_jit-lookup :
    (hash : List ℕ → ℕ) {buf : Memory} {l : SegmentLayout}
    → IsSegment hash buf l
    → (id : List ℕ) → lookup_jit hash buf l id ≡ lookup hash buf l id
lookup_jit-lookup hash {buf} {l} inv [] = unfold lookup_jit lookup in refl
lookup_jit-lookup hash {buf} {l} inv (c ∷ cs) =
    lookup_jit_lem hash buf l c cs ∙ (elim (lookup_lem hash inv c cs) [
      | inl (j, h, e) ↦ rw e (unfold found_or_none in refl)
      | inr (gone, e) ↦ rw e (unfold found_or_none in refl)
    ])
