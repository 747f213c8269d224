-- ===== src/Segment/Insert/Success.antt =====
-- What any successful `insert` promises.
use quorin.Base.{
  ℕ, ◌+◌, ◌^◌, ◌≤◌, ◌<◌, ◌≡◌, subst, ap, ◌*◌, ◌∙◌, arith, Bool, not, List, [], ◌∷◌, some, length,
  inl, inr, ltb, ◌==◌, ltb→le,
}
use native.Mathlib.Decide.{dec_lt}
use quorin.Result.{ok, value_error, string_pool_exhausted, ◌>>=◌, ◌>>◌, raise_if, raise_if-eq-ok}
use quorin.Memory.{Memory, read_bytes}
use quorin.Layout.{SegmentLayout}
use quorin.Segment.{row_offset, start_probe, lookup, insert, insert_at}
use quorin.Segment.Slots.{next_row, pool_cursor, IsSegment}
use quorin.Segment.Probing.{Absent}
use quorin.Segment.View.{Holds, lookup_view, holds_or_absent}
use quorin.Segment.Insert.New.{insert-Inserted, insert_full}
use quorin.Segment.Insert.Update.{insert-Updated}

-- A well-formed segment in which the entity has the row
pub record Stored (hash : List ℕ → ℕ) (l : SegmentLayout) (id row : List ℕ) (buf : Memory)
    : Type 0 where
  pub well_formed : IsSegment hash buf l
  pub offset : ℕ
  pub visible : lookup hash buf l id ≡ ok (some offset)
  pub stored : read_bytes buf offset l.row_size ≡ row

module _ (hash : List ℕ → ℕ) (hash_u64 : (b : List ℕ) → hash b < 2 ^ 64) {l : SegmentLayout}
    {buf : Memory} (inv : IsSegment hash buf l) where
  module _ (c : ℕ) (cs row : List ℕ) (new : Bool) (buf' : Memory)
      (done : insert hash buf l (c ∷ cs) row ≡ ok (new, buf')) (sized : length row ≡ l.row_size)
      (short : length (c ∷ cs) ≤ l.max_id_bytes) where
    same_result : {b : Bool} {m : Memory} → insert hash buf l (c ∷ cs) row ≡ ok (b, m) → m ≡ buf'
    same_result {b} {m} e = let r : (b, m) ≡ (new, buf') = cc in ap (λ (t : Bool × Memory). t.1) r

    held-Stored : (j : ℕ) → Holds buf l (c ∷ cs) j → Stored hash l (c ∷ cs) row buf'
    held-Stored j held =
        let (run, outcome) = insert-Updated hash inv c cs row j held sized short in
        subst (Stored hash l (c ∷ cs) row) (same_result run) (record {
          well_formed = outcome.well_formed;
          offset = row_offset buf l j;
          visible = outcome.lookups (c ∷ cs) ∙ (lookup_view hash inv c cs).0 j held;
          stored = outcome.stored;
        })

    absent-Stored : Absent hash inv (c ∷ cs) → Stored hash l (c ∷ cs) row buf'
    absent-Stored gone =
        let full = insert_full hash hash_u64 inv c cs row gone sized short in
        elim (dec_lt (next_row buf) l.capacity) [
          | no used_up ↦ let fails = full (inl (omega arith)) in cc
          | yes rows ↦
              elim (dec_lt l.string_pool_data_bytes (pool_cursor buf + (4 + length (c ∷ cs)))) [
                | yes over ↦ let fails = full (inr over) in cc
                | no fits ↦
                    let (made, run, outcome) =
                      insert-Inserted hash hash_u64 inv c cs row gone sized short rows
                        (omega arith) in
                    subst (Stored hash l (c ∷ cs) row) (same_result run) (record {
                      well_formed = outcome.well_formed;
                      offset = l.feature_rows_offset + next_row buf * l.row_size;
                      visible = outcome.visible;
                      stored = outcome.stored;
                    })
              ]
        ]

  -- Whether it returns True or False, an `insert` that raises nothing leaves a well-formed segment in
  -- which `lookup` finds the entity, at a row with the given bytes.
  pub insert-Stored :
      (id row : List ℕ) (new : Bool) (buf' : Memory)
      → insert hash buf l id row ≡ ok (new, buf')
      → Stored hash l id row buf'
  unfolding insert
  insert-Stored [] row new buf' h = cc
  insert-Stored (c ∷ cs) row new buf' h =
      let rest = start_probe hash buf l (c ∷ cs) >>= insert_at buf l (hash (c ∷ cs)) (c ∷ cs) row in
      let (size, h₁) =
        raise_if-eq-ok (not (length row == l.row_size)) value_error
          (raise_if (ltb l.max_id_bytes (length (c ∷ cs))) string_pool_exhausted >> rest) h in
      let (room, h₂) =
        raise_if-eq-ok (ltb l.max_id_bytes (length (c ∷ cs))) string_pool_exhausted rest h₁ in
      let sized : length row ≡ l.row_size = ground (arith, size) in
      let short = ltb→le l.max_id_bytes (length (c ∷ cs)) room in
      elim (holds_or_absent hash inv (c ∷ cs)) [
        | inl (j, held) ↦ held-Stored c cs row new buf' h sized short j held
        | inr gone ↦ absent-Stored c cs row new buf' h sized short gone
      ]
