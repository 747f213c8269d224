-- ===== src/InsertKernel/Loaded.antt =====
-- A table that fits, and the segment that holds its first rows.
use quorin.Base.{
  ℕ, zero, suc, ◌+◌, ◌-◌, ◌*◌, ◌≤◌, ◌<◌, ◌≡◌, ◌≢◌, refl, sym, ◌∙◌, ap, subst, arith, true, none,
  some, List, [], ◌∷◌, length, below_suc, inl, inr,
}
use quorin.Result.{ok}
use quorin.Memory.{Memory, read_bytes}
use quorin.Memory.Frame.{length-read_bytes}
use quorin.Schema.Table.Rows.{EndsBy}
use quorin.Layout.{SegmentLayout}
use quorin.Segment.{lookup, row_offset}
use quorin.Segment.Slots.{IsSegment, next_row}
use quorin.Segment.View.{lookup_lem}
use quorin.Segment.Insert.New.{Inserted}
use quorin.InsertKernel.{Table, id_of}
use quorin.InsertKernel.Columns.{Sized}
use quorin.InsertKernel.Load.{HasColumns, HasColumns-part}

-- A table that fits a segment: its offsets start at zero and grow, its ids are distinct and not
-- empty, its columns have the sizes of the fields, and there is room for all of it.
pub record Fits (l : SegmentLayout) (t : Table) : Type 0 where
  pub entity_id_there : t.has_entity_id ≡ true
  pub fields_there : t.has_fields ≡ true
  pub from_zero : t.id_byte_offsets 0 ≡ 0
  pub grows : (i : ℕ) → i < t.num_rows → t.id_byte_offsets i ≤ t.id_byte_offsets (i + 1)
  pub not_empty : (i : ℕ) → i < t.num_rows → id_of t i ≢ []
  pub distinct : (i j : ℕ) → i < j → j < t.num_rows → id_of t i ≢ id_of t j
  pub sized : Sized t.num_rows l.assembly_table t.columns
  pub rows_room : t.num_rows ≤ l.capacity
  pub id_room : (i : ℕ) → i < t.num_rows → length (id_of t i) ≤ l.max_id_bytes
  pub pool_room : t.id_byte_offsets t.num_rows + t.num_rows * 4 ≤ l.string_pool_data_bytes

-- The first `n` rows of the table are in the segment, and nothing else is.
pub record Loaded (hash : List ℕ → ℕ) (l : SegmentLayout) (t : Table) (n : ℕ) (buf : Memory)
    : Type 0 where
  pub well_formed : IsSegment hash buf l
  pub found :
      (j : ℕ)
      → j < n
      → lookup hash buf l (id_of t j) ≡ ok (some (l.feature_rows_offset + j * l.row_size))
  pub stored :
      (j : ℕ)
      → j < n
      → HasColumns buf (l.feature_rows_offset + j * l.row_size) j l.assembly_table t.columns
  pub others :
      (c : ℕ) (cs : List ℕ)
      → ((j : ℕ) → j < n → id_of t j ≢ c ∷ cs)
      → lookup hash buf l (c ∷ cs) ≡ ok none

-- `pool_cursor` before row `i`
abbrev pub cursor_at : Table → ℕ → ℕ
cursor_at t i = t.id_byte_offsets i + i * 4

module _ (l : SegmentLayout) (t : Table) (fits : Fits l t) where
  pub id_len : (i : ℕ) → length (id_of t i) ≡ t.id_byte_offsets (i + 1) - t.id_byte_offsets i
  unfolding id_of
  id_len i =
      length-read_bytes t.encoded_ids_concat (t.id_byte_offsets i)
        (t.id_byte_offsets (i + 1) - t.id_byte_offsets i)

  pub cursor_step :
      (i : ℕ) → i < t.num_rows → cursor_at t i + (4 + length (id_of t i)) ≡ cursor_at t (suc i)
  cursor_step i lt =
      let next : t.id_byte_offsets (i + 1) ≡ t.id_byte_offsets (suc i) =
        ap t.id_byte_offsets (omega arith) in
      omega (arith, id_len i, fits.grows i lt, next)

  -- The offsets of later rows are no smaller.
  grows_to : (d i : ℕ) → i + d ≤ t.num_rows → t.id_byte_offsets i ≤ t.id_byte_offsets (i + d)
  grows_to zero i h = let e : i + 0 ≡ i = omega arith in rw e (omega arith)
  grows_to (suc d) i h =
      let e : i + suc d ≡ i + 1 + d = omega arith in
      let first = fits.grows i (omega arith) in
      let rest = grows_to d (i + 1) (omega arith) in rw e (omega (arith, first, rest))

  pub cursor_end : (i : ℕ) → i ≤ t.num_rows → cursor_at t i ≤ cursor_at t t.num_rows
  cursor_end i h =
      let d = t.num_rows - i in
      let e : i + d ≡ t.num_rows = omega arith in
      let grown =
        subst (λ k. t.id_byte_offsets i ≤ t.id_byte_offsets k) e (grows_to d i (omega arith)) in
      omega (arith, grown)

module _ (hash : List ℕ → ℕ) (l : SegmentLayout) (ends : EndsBy l.row_size l.assembly_table)
    (t : Table) (fits : Fits l t) where
  -- An insert leaves the lookups of other ids, and the rows that were found, as they were.
  other_lookup :
      (m m' : Memory) (new row : List ℕ)
      → Inserted hash l m new row m'
      → (id : List ℕ) → id ≢ []
      → id ≢ new
      → lookup hash m' l id ≡ lookup hash m l id
  other_lookup m m' new row ins [] some_id ne = absurd (some_id refl)
  other_lookup m m' new row ins (c ∷ cs) some_id ne = ins.others c cs ne

  found_row :
      (m m' : Memory) (new row : List ℕ)
      → IsSegment hash m l
      → Inserted hash l m new row m'
      → (id : List ℕ) (a : ℕ) → id ≢ []
      → lookup hash m l id ≡ ok (some a)
      → read_bytes m a l.row_size ≡ read_bytes m' a l.row_size
  found_row m m' new row inv ins [] a some_id h = absurd (some_id refl)
  found_row m m' new row inv ins (c ∷ cs) a some_id h = elim (lookup_lem hash inv c cs) [
    | inl (j, held, e) ↦
        let at : row_offset m l j ≡ a = cc (e, h) in
        subst (λ b. read_bytes m b l.row_size ≡ read_bytes m' b l.row_size) at
          (sym (ins.rows_kept j held.inside held.on))
    | inr (gone, e) ↦ cc
  ]

  -- What an insert of row `i` adds
  pub Loaded-suc :
      (m m' : Memory) (i : ℕ) (new row : List ℕ)
      → i < t.num_rows
      → id_of t i ≡ new
      → next_row m ≡ i
      → Loaded hash l t i m
      → Inserted hash l m new row m'
      → HasColumns m' (l.feature_rows_offset + i * l.row_size) i l.assembly_table t.columns
      → Loaded hash l t (suc i) m'
  Loaded-suc m m' i new row lt id_e next_e old ins last =
      let other : (j : ℕ) → j < i → id_of t j ≢ new =
        λ j h e. fits.distinct j i h lt (e ∙ sym id_e) in
      record {
        well_formed = ins.well_formed;
        found =
            below_suc
              (λ j.
                lookup hash m' l (id_of t j) ≡ ok (some (l.feature_rows_offset + j * l.row_size)))
              i
              (λ j h.
                other_lookup m m' new row ins (id_of t j) (fits.not_empty j (omega arith))
                  (other j h)
                ∙ old.found j h)
              (ap (lookup hash m' l) id_e
                ∙ ins.visible
                ∙ ap (λ (k : ℕ). ok (some (l.feature_rows_offset + k * l.row_size))) next_e);
        stored =
            below_suc
              (λ j.
                HasColumns m' (l.feature_rows_offset + j * l.row_size) j l.assembly_table t.columns)
              i
              (λ j h.
                HasColumns-part m m' (l.feature_rows_offset + j * l.row_size) l.row_size j
                  l.assembly_table t.columns
                  (found_row m m' new row old.well_formed ins (id_of t j)
                    (l.feature_rows_offset + j * l.row_size) (fits.not_empty j (omega arith))
                    (old.found j h))
                  ends (old.stored j h))
              last;
        others = λ c cs h.
            ins.others c cs (λ e. h i (omega arith) (id_e ∙ sym e))
            ∙ old.others c cs (λ j lt'. h j (omega arith));
      }
