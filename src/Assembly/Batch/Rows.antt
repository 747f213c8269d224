-- ===== src/Assembly/Batch/Rows.antt =====
-- The rows of a batch, beside `assemble` of each id.
use quorin.Base.{
  ℕ, zero, suc, ◌+◌, ◌-◌, ◌≤◌, ◌<◌, ◌≡◌, ◌≢◌, refl, length-replicate, sym, ◌∙◌, ap, subst, arith,
  Bool, true, false, Option, none, some, List, [], ◌∷◌, ◌==◌, bit_and, length, replicate, contains,
  ◌⊎◌, inl, inr, ==_self, ne→==, if◌then◌else◌,
}
use native.Mathlib.Decide.{ℕ_discrete}
use quorin.Result.{ok, err, entity_not_found, >>=-eq-ok}
use quorin.Memory.{Memory, read_u32}
use quorin.Schema.{is_empty}
use quorin.Layout.{SegmentLayout, len_prefix_bytes}
use quorin.Segment.{
  slot_at, row_offset, probe, Probe, start_probe, lookup_result, read_string_bytes, lookup,
}
use quorin.Segment.Slots.{IsSegment}
use quorin.Segment.View.{lookup_lem}
use quorin.LookupKernel.{bytes_match}
use quorin.LookupKernel.Parity.{stored_test, lookup_jit-lookup}
use quorin.Assembly.{assemble_core, assemble, assemble_at, check_out}
use quorin.Assembly.Batch.{
  Query, Buffers, pad_row, match_padded, batch_probe, overwrite, fill_row, batch_row, assemble_rows,
  range_from,
}

-- The comparison with the padded row is that with the id.
match_padded-bytes_match :
    (buf : Memory) (a : ℕ) (row : ℕ → ℕ) (k : ℕ) (bs : List ℕ)
    → ((j : ℕ) → row (k + j) ≡ pad_row bs j)
    → match_padded buf a row k (length bs) ≡ bytes_match buf (a + k) bs
unfolding match_padded bytes_match pad_row
match_padded-bytes_match buf a row k [] h = refl
match_padded-bytes_match buf a row k (b ∷ bs) h =
    let at : row k ≡ b = ap row (omega arith) ∙ h 0 in
    let next : a + suc k ≡ suc (a + k) = omega arith in
    let rest =
      match_padded-bytes_match buf a row (suc k) bs (λ j. ap row (omega arith) ∙ h (suc j)) in
    rw at (
      ap (λ (t : Bool). if buf (a + k) == b then t else false)
        (rest ∙ ap (λ (t : ℕ). bytes_match buf t bs) next))

abbrev query : (List ℕ → ℕ) → List ℕ → Query
query hash id = record { id_hash = hash id; padded = pad_row id; len = length id }

-- Where the probe of `lookup` raises nothing, that of the batch comes to the same.
batch_probe-probe :
    (buf : Memory) (l : SegmentLayout) (hash : List ℕ → ℕ) (id : List ℕ) (rounds idx : ℕ)
    (p : Probe)
    → probe buf l (hash id) id rounds idx ≡ ok p
    → batch_probe buf l (query hash id) rounds idx ≡ lookup_result buf l p
unfolding batch_probe probe read_string_bytes
batch_probe-probe buf l hash id zero idx p h = cc
batch_probe-probe buf l hash id (suc rounds) idx p h =
    let slot = slot_at buf l idx in
    let entry = l.string_pool_data_offset + slot.id_offset in
    let next = bit_and (idx + 1) (l.slot_capacity - 1) in
    let start : entry + len_prefix_bytes + 0 ≡ entry + len_prefix_bytes = omega arith in
    let same =
      match_padded-bytes_match buf (entry + len_prefix_bytes) (pad_row id) 0 id
        (λ j. ap (pad_row id) (omega arith))
      ∙ ap (λ (t : ℕ). bytes_match buf t id) start in
    let stored = stored_test buf (entry + len_prefix_bytes) (read_u32 buf entry) id in
    let rest = batch_probe-probe buf l hash id rounds next p in
    rw (same, stored) (ground (arith, rest, h))

overwrite-sized : (vector old : List ℕ) → length vector ≡ length old → overwrite vector old ≡ vector
unfolding overwrite
overwrite-sized [] [] e = refl
overwrite-sized [] (y ∷ ys) e = absurd (omega arith)
overwrite-sized (x ∷ xs) [] e = absurd (omega arith)
overwrite-sized (x ∷ xs) (y ∷ ys) e =
    ap (λ (t : List ℕ). x ∷ t) (unfold overwrite in overwrite-sized xs ys (omega arith))

contains_later :
    (b i : ℕ) (order : List ℕ) → b ≢ i → contains b (i ∷ order) ≡ true → contains b order ≡ true
contains_later b i order ne h = ground arith

pub range_from-contains : (n a b : ℕ) → a ≤ b → b < a + n → contains b (range_from a n) ≡ true
unfolding range_from
range_from-contains zero a b p q = absurd (omega arith)
range_from-contains (suc n) a b p q = ground (arith, range_from-contains n (suc a) b)

-- A row of the batch: the vector that `assemble` returns for the id, with its mark set, or, where
-- `assemble` raises EntityNotFoundError, zeros, with its mark cleared
abbrev pub RowIs :
    (ℕ → List ℕ → ℕ) → (List ℕ → ℕ) → Memory → SegmentLayout → List ℕ → List ℕ → Bool → Type 0
RowIs cast hash buf l id row found =
    ((found ≡ true) × (assemble cast hash buf l id none ≡ ok row))
    ⊎ ((found ≡ false)
        × (assemble cast hash buf l id none ≡ err entity_not_found)
        × (row ≡ replicate l.total_element_count 0))

module _ (cast : ℕ → List ℕ → ℕ) (hash : List ℕ → ℕ) {buf : Memory} {l : SegmentLayout}
    (inv : IsSegment hash buf l)
    (sized : (offset : ℕ)
      → length (assemble_core cast buf offset l.assembly_table) ≡ l.total_element_count) where
  batch_probe-lookup :
      (c : ℕ) (cs : List ℕ) (r : Option ℕ)
      → lookup hash buf l (c ∷ cs) ≡ ok r
      → batch_probe buf l
          (query hash (c ∷ cs))
          l.slot_capacity
          (bit_and (hash (c ∷ cs)) (l.slot_capacity - 1))
        ≡ r
  unfolding lookup
  batch_probe-lookup c cs r h =
      let (p, run, e) =
        >>=-eq-ok (start_probe hash buf l (c ∷ cs)) (λ p. ok (lookup_result buf l p)) h in
      batch_probe-probe buf l hash (c ∷ cs) l.slot_capacity
        (bit_and (hash (c ∷ cs)) (l.slot_capacity - 1)) p run
      ∙ (cc)

  assemble-lookup :
      (c : ℕ) (cs : List ℕ) (r : Option ℕ)
      → lookup hash buf l (c ∷ cs) ≡ ok r
      → assemble cast hash buf l (c ∷ cs) none ≡ assemble_at cast buf l none r
  unfolding assemble
  assemble-lookup c cs r h = rw (lookup_jit-lookup hash inv (c ∷ cs) ∙ h) refl

  -- The row at `b` has been filled for the id.
  abbrev Done : List ℕ → ℕ → Buffers → Type 0
  Done id b to =
      RowIs cast hash buf l id (to.out b) (to.found_mask b)
      × (length (to.out b) ≡ l.total_element_count)

  fill_row-Done :
      (c : ℕ) (cs : List ℕ) (r : Option ℕ) (to : Buffers) (b : ℕ)
      → lookup hash buf l (c ∷ cs) ≡ ok r
      → length (to.out b) ≡ l.total_element_count
      → Done (c ∷ cs) b (fill_row cast buf l to b r)
  unfolding fill_row assemble_at check_out
  fill_row-Done c cs none to b h len =
      let miss = assemble-lookup c cs none h in
      rw (==_self b) (inr (refl, miss, refl), length-replicate l.total_element_count 0)
  fill_row-Done c cs (some offset) to b h len =
      let hit = assemble-lookup c cs (some offset) h in
      let vector = assemble_core cast buf offset l.assembly_table in
      rw (==_self b, overwrite-sized vector (to.out b) (sized offset ∙ sym len))
        (inl (refl, hit), sized offset)

  -- The other rows stay.
  fill_row-other :
      (to : Buffers) (b i : ℕ) (r : Option ℕ)
      → i ≢ b
      → ((fill_row cast buf l to b r).out i ≡ to.out i)
        × ((fill_row cast buf l to b r).found_mask i ≡ to.found_mask i)
  unfolding fill_row
  fill_row-other to b i none ne = rw (ne→== i b ne) (refl, refl)
  fill_row-other to b i (some offset) ne = rw (ne→== i b ne) (refl, refl)

  module _ (queries : ℕ → Query) (c : ℕ) (cs : List ℕ) (b : ℕ)
      (asked : queries b ≡ query hash (c ∷ cs)) (r : Option ℕ)
      (looked_up : lookup hash buf l (c ∷ cs) ≡ ok r) where
    batch_row_self :
        (to : Buffers)
        → length (to.out b) ≡ l.total_element_count
        → Done (c ∷ cs) b (batch_row cast buf l queries to b)
    unfolding batch_row
    batch_row_self to len =
        rw (asked, batch_probe-lookup c cs r looked_up) (fill_row-Done c cs r to b looked_up len)

    batch_row-other :
        (to : Buffers) (i : ℕ)
        → b ≢ i
        → ((batch_row cast buf l queries to i).out b ≡ to.out b)
          × ((batch_row cast buf l queries to i).found_mask b ≡ to.found_mask b)
    unfolding batch_row
    batch_row-other to i ne = fill_row-other to i b _ ne

    -- A row that is filled, or that is still to come, is filled in the end, in any order.
    pub assemble_rows-Done :
        (order : List ℕ) (to : Buffers)
        → length (to.out b) ≡ l.total_element_count
        → (contains b order ≡ true) ⊎ Done (c ∷ cs) b to
        → Done (c ∷ cs) b (assemble_rows cast buf l queries to order)
    unfolding assemble_rows
    assemble_rows-Done [] to len (inl absent) = cc
    assemble_rows-Done [] to len (inr done) = done
    assemble_rows-Done (i ∷ order) to len come = elim (ℕ_discrete b i) [
      | yes e ↦
          let done =
            subst (λ k. Done (c ∷ cs) b (batch_row cast buf l queries to k)) e
              (batch_row_self to len) in
          assemble_rows-Done order (batch_row cast buf l queries to i) (done.1) (inr done)
      | no ne ↦
          let (row_e, mark_e) = batch_row-other to i ne in
          let later = batch_row cast buf l queries to i in
          assemble_rows-Done order later (ap length row_e ∙ len) (elim come [
            | inl ahead ↦ inl (contains_later b i order ne ahead)
            | inr done ↦ inr (
              subst (λ m. RowIs cast hash buf l (c ∷ cs) (later.out b) m) (sym mark_e)
                  (subst (λ v. RowIs cast hash buf l (c ∷ cs) v (to.found_mask b)) (sym row_e)
                    (done.0)),
              ap length row_e ∙ done.1,
            )
          ])
    ]

  looked_up_some : (c : ℕ) (cs : List ℕ) → (r : Option ℕ) × (lookup hash buf l (c ∷ cs) ≡ ok r)
  looked_up_some c cs = elim (lookup_lem hash inv c cs) [
    | inl (j, held, e) ↦ (some (row_offset buf l j), e)
    | inr (gone, e) ↦ (none, e)
  ]

  -- A row of an id that is not empty, in any order that visits it
  pub visited-RowIs :
      (queries : ℕ → Query) (id : List ℕ) (b : ℕ) (order : List ℕ) (to : Buffers)
      → is_empty id ≡ false
      → queries b ≡ query hash id
      → length (to.out b) ≡ l.total_element_count
      → contains b order ≡ true
      → RowIs cast hash buf l id
          ((assemble_rows cast buf l queries to order).out b)
          ((assemble_rows cast buf l queries to order).found_mask b)
  visited-RowIs queries [] b order to some_id asked len visit = cc
  visited-RowIs queries (c ∷ cs) b order to some_id asked len visit =
      let (r, e) = looked_up_some c cs in
      (assemble_rows-Done queries c cs b asked r e order to len (inl visit)).0
