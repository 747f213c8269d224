-- ===== src/Assembly/Vector.antt =====
-- The vector that a row gives.
use quorin.Base.{
  ℕ, zero, suc, ◌+◌, ◌*◌, ◌≤◌, ◌≡◌, refl, sym, ◌∙◌, ap, ap₂, ◌⊎◌, inl, inr, arith, List, [], ◌∷◌,
  ◌++◌, length, length-append, All,
}
use quorin.Result.{ok, err, entity_not_found, ◌>>◌}
use quorin.Align.{align_up}
use quorin.Memory.{Memory}
use quorin.Memory.Frame.{SameOn, read_bytes-SameOn}
use quorin.Schema.{
  DType, float32, float64, int32, int64, uint8, dtype_code, dtype_byte_size, FeatureField,
  element_count, byte_count, total_element_count,
}
use quorin.Schema.Offsets.{OffsetRow, field_byte_offsets, fill_table, compute_assembly_table}
use quorin.Schema.Table.{row_size}
use quorin.Schema.Table.Rows.{EndsBy, row_size_covers}
use quorin.Layout.{SegmentLayout}
use quorin.Segment.{row_offset}
use quorin.Segment.Slots.{IsSegment}
use quorin.Segment.Probing.{Absent}
use quorin.Segment.View.{Holds, lookup_lem}
use quorin.LookupKernel.Parity.{lookup_jit-lookup}
use quorin.Assembly.{item_size, cast_elements, Out, check_out, assemble_core, assemble_at, assemble}

item_size-dtype_code : (d : DType) → item_size (dtype_code d) ≡ dtype_byte_size d
unfolding item_size dtype_code dtype_byte_size
item_size-dtype_code float32 = refl
item_size-dtype_code float64 = refl
item_size-dtype_code int32 = refl
item_size-dtype_code int64 = refl
item_size-dtype_code uint8 = refl

module _ (cast : ℕ → List ℕ → ℕ) where
  cast_elements-length :
      (buf : Memory) (code start n : ℕ) → length (cast_elements cast buf code start n) ≡ n
  unfolding cast_elements
  cast_elements-length buf code start zero = refl
  cast_elements-length buf code start (suc n) =
      ap suc (cast_elements-length buf code (start + item_size code) n)

  cast_elements-SameOn :
      (m n : Memory) (lo hi code start k : ℕ)
      → SameOn m n lo hi
      → lo ≤ start
      → start + k * item_size code ≤ hi
      → cast_elements cast m code start k ≡ cast_elements cast n code start k
  unfolding cast_elements
  cast_elements-SameOn m n lo hi code start zero s below above = refl
  cast_elements-SameOn m n lo hi code start (suc k) s below above =
      ap₂ ◌∷◌ (ap (cast code) (read_bytes-SameOn start (item_size code) s below (grind arith))) (
        cast_elements-SameOn m n lo hi code (start + item_size code) k s (omega arith)
          (grind arith))

  -- The rows of a table are as wide as their elements.
  abbrev Wide : List OffsetRow → Type 0
  Wide = All (λ r. r.byte_count ≡ r.element_count * item_size r.dtype_code)

  assemble_core-SameOn :
      (m n : Memory) (row size : ℕ) (t : List OffsetRow)
      → SameOn m n row (row + size)
      → EndsBy size t
      → Wide t
      → assemble_core cast m row t ≡ assemble_core cast n row t
  unfolding assemble_core
  assemble_core-SameOn m n row size [] s ends wide = refl
  assemble_core-SameOn m n row size (r ∷ t) s ends wide =
      let fits = ends.0 in
      let width = wide.0 in
      ap₂ ◌++◌
        (cast_elements-SameOn m n row (row + size) r.dtype_code (row + r.byte_offset)
          r.element_count s (omega arith) (omega arith))
        (assemble_core-SameOn m n row size t s ends.1 wide.1)

  module _ (hash : List ℕ → ℕ) where
    fill_table-Wide :
        (fs : List FeatureField) (cursor : ℕ)
        → Wide (fill_table hash fs (field_byte_offsets fs cursor))
    unfolding fill_table field_byte_offsets byte_count
    fill_table-Wide [] cursor = tt
    fill_table-Wide (f ∷ fs) cursor = (
      ap (λ w. element_count f * w) (sym (item_size-dtype_code f.dtype)),
      fill_table-Wide fs (align_up cursor 64 + byte_count f),
    )

    pub assemble_core-length :
        (buf : Memory) (row cursor : ℕ) (fs : List FeatureField)
        → length (assemble_core cast buf row (fill_table hash fs (field_byte_offsets fs cursor)))
          ≡ total_element_count fs
    unfolding assemble_core fill_table field_byte_offsets total_element_count
    assemble_core-length buf row cursor [] = refl
    assemble_core-length buf row cursor (f ∷ fs) =
        let next = align_up cursor 64 + byte_count f in
        length-append _
          (assemble_core cast buf row (fill_table hash fs (field_byte_offsets fs next)))
        ∙ ap₂ ◌+◌
            (cast_elements-length buf (dtype_code f.dtype) (row + align_up cursor 64)
              (element_count f))
            (assemble_core-length buf row next fs)

    -- The vector of a row has as many elements as the schema, and any two memories that agree on the
    -- row, wherever else they differ, give the same vector.
    pub assemble_core-row :
        (fs : List FeatureField) (size : ℕ)
        → row_size hash fs ≡ ok size
        → (m n : Memory) (row : ℕ) → SameOn m n row (row + size)
        → (length (assemble_core cast m row (compute_assembly_table hash fs))
            ≡ total_element_count fs)
          × (assemble_core cast m row (compute_assembly_table hash fs)
              ≡ assemble_core cast n row (compute_assembly_table hash fs))
    unfolding compute_assembly_table
    assemble_core-row fs size h m n row s =
        let (whole, packed, ends) = row_size_covers hash fs size h in
        (
          assemble_core-length m row 0 fs,
          assemble_core-SameOn m n row size (compute_assembly_table hash fs) s ends
              (fill_table-Wide fs 0),
        )

    -- In a well-formed segment, `assemble` of a non-empty id that a slot holds returns the vector of the
    -- row of this slot, if `out` fits or is not given, and raises ValueError if it does not; for an id that
    -- no slot holds, it raises EntityNotFoundError.
    pub assemble_lem :
        {buf : Memory} {l : SegmentLayout} (inv : IsSegment hash buf l) (c : ℕ) (cs : List ℕ)
        (out : Out)
        → ((j : ℕ) × Holds buf l (c ∷ cs) j
            × (assemble cast hash buf l (c ∷ cs) out ≡ (
                check_out out
                >> ok (assemble_core cast buf (row_offset buf l j) l.assembly_table))))
          ⊎ (Absent hash inv (c ∷ cs)
              × (assemble cast hash buf l (c ∷ cs) out ≡ err entity_not_found))
    unfolding assemble assemble_at
    assemble_lem {buf} {l} inv c cs out =
        let same = lookup_jit-lookup hash inv (c ∷ cs) in
        elim (lookup_lem hash inv c cs) [
          | inl (j, held, e) ↦ inl (j, held, rw (same ∙ e) refl)
          | inr (gone, e) ↦ inr (gone, rw (same ∙ e) refl)
        ]
