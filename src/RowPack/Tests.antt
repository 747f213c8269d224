-- ===== src/RowPack/Tests.antt =====
-- Packing a counter and a vector of three floats.
use mathlib.Core.List.{flatten}
use quorin.Base.{◌==◌, ℕ, ◌<◌, ◌≡◌, refl, arith, List, [], ◌∷◌, All, if◌then◌else◌}
use quorin.Result.{Result, ok}
use quorin.Memory.{Memory, from_le}
use quorin.Schema.{float32, int64, byte_count, element_count, dtype_byte_size}
use quorin.Layout.Tests.{toy_hash, two_fields, two_rows, two_rows_ok, row_size_ok}
use quorin.RowPack.{flat_bytes, pack_row_from_list}
use quorin.RowPack.Struct.{Keeps, convert}
use quorin.RowPack.Whole.{ConvertsFrom, ReadsFrom, pack_row_from_list_lem}

-- A value is the bytes of its elements.
abbrev Value : Type 0
Value = List (List ℕ)

abbrev joined : Value → List ℕ
joined v = flatten v

abbrev struct_bytes : ℕ → Value → Result (List ℕ)
struct_bytes d v = ok (joined v)

abbrev asarray : ℕ → Value → Result (List (List ℕ))
asarray d v = ok v

abbrev counter : Value
counter = (1 ∷ 2 ∷ 3 ∷ 4 ∷ 5 ∷ 6 ∷ 7 ∷ 8 ∷ []) ∷ []

abbrev vector : Value
vector = (1 ∷ 1 ∷ 1 ∷ 1 ∷ []) ∷ (2 ∷ 2 ∷ 2 ∷ 2 ∷ []) ∷ (3 ∷ 3 ∷ 3 ∷ 3 ∷ []) ∷ []

abbrev values : List Value
values = counter ∷ vector ∷ []

abbrev image : ℕ → List ℕ
image i = if i == 0 then joined counter else joined vector

wide : All (λ f. 0 < byte_count f) two_fields
unfolding byte_count element_count dtype_byte_size
wide = (omega arith, (omega arith, tt))

converted : ConvertsFrom toy_hash two_fields Value struct_bytes asarray values image 0 two_rows
unfolding convert flat_bytes flatten from_le
converted = (
  record {
    place = 1;
    field = record { name = b'n' ∷ []; dtype = int64; shape = [] };
    declared = refl;
    hashed = refl;
    value = counter;
    there = refl;
    converts = refl;
    wide = refl;
  },
  (
    record {
      place = 0;
      field = record { name = b'v' ∷ []; dtype = float32; shape = 3 ∷ [] };
      declared = refl;
      hashed = refl;
      value = vector;
      there = refl;
      converts = refl;
      wide = refl;
    },
    tt,
  ),
)

-- The buffer holds 9 everywhere.
abbrev used : Memory
used i = 9

pack_row_from_list_lem_example :
    (packed : Memory) × (pack_row_from_list Value struct_bytes asarray toy_hash two_fields values
        used 128
      ≡ ok packed)
    × Keeps 0 128 used packed
    × ReadsFrom toy_hash two_fields Value struct_bytes asarray values image packed 0 two_rows
pack_row_from_list_lem_example =
    pack_row_from_list_lem toy_hash two_fields Value struct_bytes asarray values image used 128
      two_rows two_rows_ok row_size_ok wide refl converted
