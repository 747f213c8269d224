-- ===== src/Schema/Table/Rows.antt =====
-- The row-relative table, the assembly table and `row_size`.
use quorin.Base.{
  ℕ, ◌+◌, ◌-◌, ◌%◌, ◌≤◌, ◌≡◌, refl, ◌∙◌, ap, ap₂, arith, ◌==◌, ==→eq, Bool, true, false, ◌||◌, List,
  [], ◌∷◌, map, max, Bool-cases, inl, inr, All, if◌then◌else◌,
}
use quorin.Result.{ok, err, value_error}
use quorin.Align.{align_up, align_up_64}
use quorin.Schema.{FeatureField}
use quorin.Schema.Offsets.{OffsetRow, fill_table, field_byte_offsets, compute_assembly_table}
use quorin.Schema.Offsets.Geometry.{Packed, fill_table-Packed, field_byte_offsets_header}
use quorin.Schema.Table.{
  header_size, insert_row, sort_table, contains_hash, has_collision, min_offset, max_end, rebase,
  rebase_to_first, end_of, compile_schema, compute_row_offset_table, row_size,
}
use quorin.Schema.Table.Sorting.{has_collision-sort_table}

-- A row moved by one cache line
abbrev moved : OffsetRow → OffsetRow
moved r = record r { byte_offset = r.byte_offset + 64 }

fill_table-moved :
    (hash : List ℕ → ℕ) (fs : List FeatureField) (os : List ℕ)
    → fill_table hash fs (map (λ o. o + 64) os) ≡ map moved (fill_table hash fs os)
unfolding fill_table
fill_table-moved hash [] os = refl
fill_table-moved hash (f ∷ fs) [] = refl
fill_table-moved hash (f ∷ fs) (o ∷ os) = rw (fill_table-moved hash fs os)

insert_row-moved :
    (r : OffsetRow) (t : List OffsetRow)
    → insert_row (moved r) (map moved t) ≡ map moved (insert_row r t)
unfolding insert_row
insert_row-moved r [] = refl
insert_row-moved r (s ∷ t) = ground (arith, insert_row-moved r t)

sort_table-moved : (t : List OffsetRow) → sort_table (map moved t) ≡ map moved (sort_table t)
unfolding sort_table
sort_table-moved [] = refl
sort_table-moved (r ∷ t) = rw (sort_table-moved t) (insert_row-moved r (sort_table t))

moved_back : (r : OffsetRow) → record r { byte_offset = r.byte_offset + 64 - 64 } ≡ r
moved_back r = ground arith

contains_hash-moved :
    (h : ℕ) (t : List OffsetRow) → contains_hash h (map moved t) ≡ contains_hash h t
contains_hash-moved h [] = refl
contains_hash-moved h (r ∷ t) = ap (λ b. (h == r.name_hash) || b) (contains_hash-moved h t)

rebase-moved : (t : List OffsetRow) → rebase 64 (map moved t) ≡ t
unfolding rebase
rebase-moved [] = refl
rebase-moved (r ∷ t) = ap₂ ◌∷◌ (moved_back r) (rebase-moved t)

has_collision-moved : (t : List OffsetRow) → has_collision (map moved t) ≡ has_collision t
has_collision-moved [] = refl
has_collision-moved (r ∷ t) = ap₂ ◌||◌ (contains_hash-moved r.name_hash t) (has_collision-moved t)

-- Some row starts at byte 0, so the smallest offset of the moved rows is 64.
abbrev starts_at_zero : List OffsetRow → Bool
starts_at_zero [] = false
starts_at_zero (r ∷ t) = (r.byte_offset == 0) || starts_at_zero t

le-min_offset : (r : OffsetRow) (t : List OffsetRow) → 64 ≤ min_offset (moved r) (map moved t)
unfolding min_offset
le-min_offset r [] = omega arith
le-min_offset r (s ∷ t) = omega (arith, le-min_offset s t)

min_offset-moved :
    (r : OffsetRow) (t : List OffsetRow)
    → starts_at_zero (r ∷ t) ≡ true
    → min_offset (moved r) (map moved t) ≡ 64
unfolding min_offset
min_offset-moved r [] h = ground arith
min_offset-moved r (s ∷ t) h = elim (Bool-cases (r.byte_offset == 0)) [
  | inl e ↦ omega (arith, le-min_offset s t, ==→eq r.byte_offset 0 e)
  | inr e ↦ let rest = min_offset-moved s t (rw e at h) in omega (arith, rest)
]

rebase_to_first-moved :
    (t : List OffsetRow) → starts_at_zero t ≡ true → rebase_to_first (map moved t) ≡ t
unfolding rebase_to_first
rebase_to_first-moved [] h = refl
rebase_to_first-moved (r ∷ t) h = rw (min_offset-moved r t h) (rebase-moved (r ∷ t))

starts-insert_row :
    (r : OffsetRow) (t : List OffsetRow)
    → starts_at_zero (insert_row r t) ≡ (r.byte_offset == 0) || starts_at_zero t
unfolding insert_row
starts-insert_row r [] = refl
starts-insert_row r (s ∷ t) = ground (arith, starts-insert_row r t)

starts-sort_table : (t : List OffsetRow) → starts_at_zero (sort_table t) ≡ starts_at_zero t
unfolding sort_table
starts-sort_table [] = refl
starts-sort_table (r ∷ t) = rw (starts-insert_row r (sort_table t), starts-sort_table t)

max_end-insert_row :
    (r : OffsetRow) (t : List OffsetRow)
    → max_end (insert_row r t) ≡ max (r.byte_offset + r.byte_count) (max_end t)
unfolding insert_row max_end
max_end-insert_row r [] = refl
max_end-insert_row r (s ∷ t) = ground (arith, max_end-insert_row r t)

max_end-sort_table : (t : List OffsetRow) → max_end (sort_table t) ≡ max_end t
unfolding sort_table max_end
max_end-sort_table [] = refl
max_end-sort_table (r ∷ t) = rw (max_end-insert_row r (sort_table t), max_end-sort_table t)

end_of-align_up : (t : List OffsetRow) → end_of t ≡ align_up (max_end t) 64
unfolding max_end
end_of-align_up [] = omega (arith, align_up_64 0)
end_of-align_up (r ∷ t) = refl

-- Every row ends at `n` or before.
abbrev pub EndsBy : ℕ → List OffsetRow → Type 0
EndsBy n = All (λ r. r.byte_offset + r.byte_count ≤ n)

max_end-EndsBy : (t : List OffsetRow) (n : ℕ) → max_end t ≤ n → EndsBy n t
unfolding max_end
max_end-EndsBy [] n h = tt
max_end-EndsBy (r ∷ t) n h = (omega arith, max_end-EndsBy t n (omega arith))

module _ (hash : List ℕ → ℕ) where
  header-moved :
      (fs : List FeatureField)
      → fill_table hash fs (field_byte_offsets fs header_size)
        ≡ map moved (compute_assembly_table hash fs)
  unfolding compute_assembly_table
  header-moved fs = rw (field_byte_offsets_header fs) (fill_table-moved hash fs _)

  assembly-starts :
      (f : FeatureField) (fs : List FeatureField)
      → starts_at_zero (compute_assembly_table hash (f ∷ fs)) ≡ true
  unfolding compute_assembly_table field_byte_offsets fill_table
  assembly-starts f fs = ground (arith, align_up_64 0)

  sorted_rebase :
      (fs : List FeatureField)
      → rebase_to_first (sort_table (map moved (compute_assembly_table hash fs)))
        ≡ sort_table (compute_assembly_table hash fs)
  sorted_rebase [] = unfold compute_assembly_table fill_table sort_table rebase_to_first in refl
  sorted_rebase (f ∷ fs) =
      let t = compute_assembly_table hash (f ∷ fs) in
      rw (sort_table-moved t)
        (rebase_to_first-moved (sort_table t) (starts-sort_table t ∙ assembly-starts f fs))

  -- The row-relative table is the assembly table sorted by name hash: each field is at the same
  -- offset in the table that lookups search and in the one that output vectors are built by.
  pub compute_row_offset_table_lem :
      (fs : List FeatureField)
      → compute_row_offset_table hash fs ≡ (
          if has_collision (compute_assembly_table hash fs)
          then err value_error
          else ok (sort_table (compute_assembly_table hash fs)))
  unfolding compute_row_offset_table compile_schema
  compute_row_offset_table_lem fs =
      let t = compute_assembly_table hash fs in
      let same : has_collision (sort_table (map moved t)) ≡ has_collision t =
        has_collision-sort_table (map moved t) ∙ has_collision-moved t in
      rw (header-moved fs, same) (ground (arith, sorted_rebase fs))

  row_size-eq :
      (fs : List FeatureField) (n : ℕ)
      → row_size hash fs ≡ ok n
      → n ≡ align_up (max_end (compute_assembly_table hash fs)) 64
  unfolding row_size
  row_size-eq fs n h =
      let t = compute_assembly_table hash fs in
      ground (
        arith,
        compute_row_offset_table_lem fs,
        end_of-align_up (sort_table t),
        max_end-sort_table t,
      )

  -- A row has room for every field: in declaration order the fields start on cache lines, each at
  -- or behind the end of the one before it, and all of them end within `row_size`, which is a
  -- whole number of cache lines.
  pub row_size_covers :
      (fs : List FeatureField) (n : ℕ)
      → row_size hash fs ≡ ok n
      → (n % 64 ≡ 0)
        × Packed 0 (compute_assembly_table hash fs)
        × EndsBy n (compute_assembly_table hash fs)
  row_size_covers fs n h =
      let t = compute_assembly_table hash fs in
      let size = row_size-eq fs n h in
      let whole = align_up_64 (max_end t) in
      (
        omega (arith, size, whole),
        unfold compute_assembly_table in fill_table-Packed hash fs 0,
        max_end-EndsBy t n (omega (arith, size, whole)),
      )
