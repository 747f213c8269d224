-- ===== src/Schema/Table.antt =====
-- quorin/schema.py: `compile_schema`, `compute_row_offset_table`, `row_size` and
-- `total_segment_size`.
pub mod Sorting
pub mod Rows
use quorin.Base.{
  ℕ, ◌+◌, ◌-◌, min, max, Bool, true, false, ◌||◌, List, [], ◌∷◌, map, ltb, ◌==◌, if◌then◌else◌,
}
use quorin.Result.{Result, ok, value_error, ◌>>=◌, ◌>>◌, raise_if}
use quorin.Align.{align_up}
use quorin.Schema.{FeatureField, byte_count}
use quorin.Schema.Offsets.{OffsetRow, cache_line_size, field_byte_offsets, fill_table}

abbrev pub header_size : ℕ
header_size = 16

abbrev pub page_size : ℕ
page_size = 4096

-- `table.sort(order="name_hash")`
unfoldable pub insert_row : OffsetRow → List OffsetRow → List OffsetRow
insert_row r [] = r ∷ []
insert_row r (s ∷ t) = if ltb s.name_hash r.name_hash then s ∷ insert_row r t else r ∷ s ∷ t

unfoldable pub sort_table : List OffsetRow → List OffsetRow
unfolding insert_row
sort_table [] = []
sort_table (r ∷ t) = insert_row r (sort_table t)

abbrev pub contains_hash : ℕ → List OffsetRow → Bool
contains_hash h [] = false
contains_hash h (r ∷ t) = (h == r.name_hash) || contains_hash h t

-- `np.unique(table["name_hash"]).size != n`
abbrev pub has_collision : List OffsetRow → Bool
has_collision [] = false
has_collision (r ∷ t) = contains_hash r.name_hash t || has_collision t

-- `int(table["byte_offset"].min())` of a table that is not empty
unfoldable pub min_offset : OffsetRow → List OffsetRow → ℕ
min_offset r [] = r.byte_offset
min_offset r (s ∷ t) = min r.byte_offset (min_offset s t)

-- `int((table["byte_offset"] + table["byte_count"]).max())`
unfoldable pub max_end : List OffsetRow → ℕ
max_end [] = 0
max_end (r ∷ t) = max (r.byte_offset + r.byte_count) (max_end t)

-- `table["byte_offset"] = table["byte_offset"] - first`
unfoldable pub rebase : ℕ → List OffsetRow → List OffsetRow
rebase first = map {A = OffsetRow} (λ r. record r { byte_offset = r.byte_offset - first })

unfoldable pub rebase_to_first : List OffsetRow → List OffsetRow
rebase_to_first [] = []
rebase_to_first (r ∷ t) = rebase (min_offset r t) (r ∷ t)

abbrev pub end_of : List OffsetRow → ℕ
end_of [] = 0
end_of (r ∷ t) = align_up (max_end (r ∷ t)) cache_line_size

-- `hash` is `_hash_name`.
module _ (hash : List ℕ → ℕ) where
  unfoldable pub compile_schema : List FeatureField → Result (List OffsetRow)
  compile_schema fields = do
    let table = sort_table (fill_table hash fields (field_byte_offsets fields header_size))
    raise_if (has_collision table) value_error
    ok table

  unfoldable pub compute_row_offset_table : List FeatureField → Result (List OffsetRow)
  compute_row_offset_table fields = do table ← compile_schema fields; ok (rebase_to_first table)

  unfoldable pub row_size : List FeatureField → Result ℕ
  row_size fields = do table ← compute_row_offset_table fields; ok (end_of table)

segment_cursor : List FeatureField → ℕ → ℕ
segment_cursor [] cursor = cursor
segment_cursor (f ∷ fs) cursor = segment_cursor fs (align_up cursor cache_line_size + byte_count f)

-- The sizing of a segment with a single entity.
unfoldable pub total_segment_size : List FeatureField → ℕ
unfolding segment_cursor
total_segment_size fields = align_up (segment_cursor fields header_size) page_size
