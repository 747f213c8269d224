-- ===== src/Schema/Offsets/Geometry.antt =====
-- Where the fields of a row lie: in declaration order, aligned, and apart.
use quorin.Base.{ℕ, ◌+◌, ◌%◌, ◌≤◌, ◌≡◌, refl, arith, List, [], ◌∷◌, map}
use quorin.Align.{align_up, align_up_64}
use quorin.Schema.{FeatureField, byte_count}
use quorin.Schema.Offsets.{OffsetRow, cache_line_size, field_byte_offsets, fill_table}

-- The rows start at `lo` or later, each on a cache line and behind the one before it.
abbrev pub Packed : ℕ → List OffsetRow → Type 0
Packed lo [] = Unit
Packed lo (r ∷ rs) =
    (lo ≤ r.byte_offset)
    × (r.byte_offset % cache_line_size ≡ 0)
    × Packed (r.byte_offset + r.byte_count) rs

pub Packed-le : {lo hi : ℕ} (rs : List OffsetRow) → lo ≤ hi → Packed hi rs → Packed lo rs
Packed-le [] h p = tt
Packed-le (r ∷ rs) h p = (omega arith, p.1, p.2)

align_up_aligned : (c : ℕ) → align_up c 64 % 64 ≡ 0
align_up_aligned c = omega (arith, align_up_64 c)

le-align_up : (c : ℕ) → c ≤ align_up c 64
le-align_up c = omega (arith, align_up_64 c)

module _ (hash : List ℕ → ℕ) where
  pub fill_table-Packed :
      (fs : List FeatureField) (c : ℕ) → Packed c (fill_table hash fs (field_byte_offsets fs c))
  unfolding fill_table field_byte_offsets
  fill_table-Packed [] c = tt
  fill_table-Packed (f ∷ fs) c =
      (le-align_up c, align_up_aligned c, fill_table-Packed fs (align_up c 64 + byte_count f))

-- Offsets move by a whole number of cache lines when the base does.
pub align_up_shift : (c : ℕ) → align_up (c + 64) 64 ≡ align_up c 64 + 64
align_up_shift c = omega (arith, align_up_64 c, align_up_64 (c + 64))

pub field_byte_offsets_shift :
    (fs : List FeatureField) (c : ℕ)
    → field_byte_offsets fs (c + 64) ≡ map (λ o. o + 64) (field_byte_offsets fs c)
unfolding field_byte_offsets
field_byte_offsets_shift [] c = refl
field_byte_offsets_shift (f ∷ fs) c =
    let swap : align_up c 64 + 64 + byte_count f ≡ align_up c 64 + byte_count f + 64 =
      omega arith in
    rw (align_up_shift c, swap, field_byte_offsets_shift fs (align_up c 64 + byte_count f))

-- The segment-absolute offsets, from byte 16, are the row-relative ones moved by one cache line.
pub field_byte_offsets_header :
    (fs : List FeatureField)
    → field_byte_offsets fs 16 ≡ map (λ o. o + 64) (field_byte_offsets fs 0)
unfolding field_byte_offsets
field_byte_offsets_header [] = refl
field_byte_offsets_header (f ∷ fs) =
    let first : align_up 16 64 ≡ 64 = align_up_64 16 in
    let zeroth : align_up 0 64 ≡ 0 = align_up_64 0 in
    let swap : 64 + byte_count f ≡ byte_count f + 64 = omega arith in
    let start : 0 + byte_count f ≡ byte_count f = omega arith in
    rw (first, zeroth, swap, start, field_byte_offsets_shift fs (byte_count f))
