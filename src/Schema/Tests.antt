-- ===== src/Schema/Tests.antt =====
-- The theorems on names and offset tables at a schema with a vector and a counter.
use mathlib.Core.List.{Perm}
use quorin.Base.{ℕ, ◌≡◌, ◌⊎◌, refl, true, false, List, [], ◌∷◌}
use quorin.Result.{ok, err, value_error}
use quorin.Schema.Name.{name_matches, match_rest, is_name_char, is_name_start}
use quorin.Schema.Offsets.{OffsetRow}
use quorin.Schema.Table.{compile_schema, has_collision}
use quorin.Schema.Table.Sorting.{IsSorted, declared, compile_schema_lem}
use quorin.Layout.Tests.{toy_hash, two_fields}

compile_schema_lem_example :
    ((table : List OffsetRow) × (compile_schema toy_hash two_fields ≡ ok table)
      × IsSorted table
      × Perm table (declared toy_hash two_fields)
      × (has_collision (declared toy_hash two_fields) ≡ false))
    ⊎ ((compile_schema toy_hash two_fields ≡ err value_error)
        × (has_collision (declared toy_hash two_fields) ≡ true))
compile_schema_lem_example = compile_schema_lem toy_hash two_fields

abbrev user_name : List ℕ
user_name = b'U' ∷ b'1' ∷ []

user_name_matches : name_matches user_name ≡ true
unfolding name_matches match_rest is_name_start is_name_char
user_name_matches = refl
