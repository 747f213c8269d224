-- ===== src/Segment/View.antt =====
-- What `lookup` means: the table of the ids that the slots in use hold.
use quorin.Base.{
  ℕ, zero, suc, ◌≤◌, ◌<◌, ◌≡◌, ◌≢◌, ◌⊎◌, arith, List, ◌∷◌, none, some, ◌==◌, bytes_eq, bytes_eq→eq,
  bytes_ne, below_suc, Bool-cases, inl, inr, ==→eq, ==→ne,
}
use quorin.Result.{ok}
use quorin.Memory.{Memory}
use quorin.Layout.{SegmentLayout}
use quorin.Segment.{occupied, row_offset, lookup}
use quorin.Segment.Slots.{flags_at, stored_id, IsSegment}
use quorin.Segment.Probing.{Absent, probe-found, probe-absent}

-- Slot `j` is in use and holds the id.
pub record Holds (buf : Memory) (l : SegmentLayout) (id : List ℕ) (j : ℕ) : Type 0 where
  pub inside : j < l.slot_capacity
  pub on : flags_at buf l j ≡ occupied
  pub same : stored_id buf l j ≡ id

module _ (hash : List ℕ → ℕ) {buf : Memory} {l : SegmentLayout} (inv : IsSegment hash buf l) where
  -- `lookup` of an id that a slot holds, and of one that no slot holds.
  pub lookup_view :
      (c : ℕ) (cs : List ℕ)
      → ((j : ℕ)
          → Holds buf l (c ∷ cs) j
          → lookup hash buf l (c ∷ cs) ≡ ok (some (row_offset buf l j)))
        × (Absent hash inv (c ∷ cs) → lookup hash buf l (c ∷ cs) ≡ ok none)
  unfolding lookup
  lookup_view c cs = (
    λ j h. rw (probe-found hash inv (c ∷ cs) j h.inside h.on h.same),
    λ absent. let (v, run, first) = probe-absent hash inv (c ∷ cs) absent in rw run,
  )

  abbrev Free : List ℕ → ℕ → Type 0
  Free id j = flags_at buf l j ≡ occupied → stored_id buf l j ≢ id

  search_below :
      (id : List ℕ) (n : ℕ)
      → n ≤ l.slot_capacity
      → ((j : ℕ) × Holds buf l id j) ⊎ ((j : ℕ) → j < n → Free id j)
  search_below id zero h = inr (λ j lt. absurd (omega arith))
  search_below id (suc n) h = elim (search_below id n (omega arith)) [
    | inl found ↦ inl found
    | inr before ↦ elim (Bool-cases (flags_at buf l n == occupied)) [
      | inr off ↦ inr (below_suc (Free id) n before (λ used. absurd (==→ne _ occupied off used)))
      | inl on ↦ elim (Bool-cases (bytes_eq (stored_id buf l n) id)) [
        | inl y ↦
            inl (
              n,
              record { inside = omega arith; on = ==→eq _ occupied on; same = bytes_eq→eq _ _ y },
            )
        | inr no_match ↦ inr (below_suc (Free id) n before (λ _. bytes_ne _ id no_match))
      ]
    ]
  ]

  -- An id is held by a slot or absent.
  pub holds_or_absent : (id : List ℕ) → ((j : ℕ) × Holds buf l id j) ⊎ Absent hash inv id
  holds_or_absent id = search_below id l.slot_capacity (omega arith)

  -- In a well-formed segment `lookup` raises nothing for a non-empty id: either a slot holds the id,
  -- and the result is the offset of its row, or no slot holds it, and the result is None.
  pub lookup_lem :
      (c : ℕ) (cs : List ℕ)
      → ((j : ℕ) × Holds buf l (c ∷ cs) j
          × (lookup hash buf l (c ∷ cs) ≡ ok (some (row_offset buf l j))))
        ⊎ (Absent hash inv (c ∷ cs) × (lookup hash buf l (c ∷ cs) ≡ ok none))
  lookup_lem c cs = elim (holds_or_absent (c ∷ cs)) [
    | inl (j, h) ↦ inl (j, h, (lookup_view c cs).0 j h)
    | inr gone ↦ inr (gone, (lookup_view c cs).1 gone)
  ]

  pub none-Absent :
      (c : ℕ) (cs : List ℕ) → lookup hash buf l (c ∷ cs) ≡ ok none → Absent hash inv (c ∷ cs)
  none-Absent c cs miss = elim (lookup_lem c cs) [ inl (j, h, hit) ↦ cc | inr (gone, e) ↦ gone ]
