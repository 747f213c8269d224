-- ===== src/RowPack/Whole.antt =====
-- Packing a row.
use quorin.Base.{
  suc, All-get_elem?, ℕ, ◌+◌, ◌≤◌, ◌<◌, ◌≡◌, inl, inr, sym, ◌∙◌, ap, subst, arith, true, false,
  some, List, [], ◌∷◌, length, get_elem?, All, Bool-cases, ==_self,
}
use quorin.Result.{Result, ok}
use quorin.Memory.{Memory, read_bytes}
use quorin.Schema.{is_empty, FeatureField, byte_count}
use quorin.Schema.Offsets.{OffsetRow, compute_assembly_table}
use quorin.Schema.Table.{sort_table, has_collision, compute_row_offset_table, row_size}
use quorin.Schema.Table.Sorting.{All-sort_table}
use quorin.Schema.Table.Rows.{compute_row_offset_table_lem, row_size_covers}
use quorin.Assembly.{item_size}
use quorin.RowPack.{
  shape_by_hash, plan_row, PlanRow, sort_plan_rows, build_plan, pack_row_from_list,
}
use quorin.RowPack.Struct.{Chain, Keeps, convert, Fits, Reads}
use quorin.RowPack.Filling.{plan-Packed}
use quorin.RowPack.Plan.{
  Packed-Pairwise, sort_table-Pairwise, All-sort_plan_rows, sort_plan_rows-All,
  sort_plan_rows-Ascending, Ascending-Chain,
}
use quorin.RowPack.Rows.{
  HasShape, all-Shaped, fill_table-HasShape, fill_table-wide, built, plan_rows-built, built-All,
  built-Pairwise,
}

module _ (hash : List ℕ → ℕ) (fields : List FeatureField) where
  sorted_table :
      (table : List OffsetRow)
      → compute_row_offset_table hash fields ≡ ok table
      → (has_collision (compute_assembly_table hash fields) ≡ false)
        × (sort_table (compute_assembly_table hash fields) ≡ table)
  sorted_table table compiled =
      let t = compute_assembly_table hash fields in
      let e = sym (compute_row_offset_table_lem hash fields) ∙ compiled in
      elim (Bool-cases (has_collision t)) [
        | inl clash ↦ absurd (ground (arith, e))
        | inr apart ↦ (apart, ground (arith, e))
      ]

  abbrev assembly : List OffsetRow
  assembly = compute_assembly_table hash fields

  shapes : has_collision assembly ≡ false → All (HasShape hash fields) (sort_table assembly)
  unfolding compute_assembly_table
  shapes apart =
      All-sort_table (HasShape hash fields) assembly
        (fill_table-HasShape hash fields fields 0 (all-Shaped hash fields 0 apart))

  abbrev HasItem : PlanRow → Type 0
  HasItem r = r.is_true_scalar ≡ true → item_size r.dtype ≡ r.byte_cnt

  abbrev Ends : ℕ → PlanRow → Type 0
  Ends size r = r.byte_off + r.byte_cnt ≤ size

  -- Sorted by offset, the rows of the plan lie one behind another, inside of the row.
  record Placed (size : ℕ) (rows : List PlanRow) : Type 0 where
    chain : Chain 0 (sort_plan_rows rows)
    ends : All (Ends size) (sort_plan_rows rows)
    items : All HasItem rows

  starts : (t : List PlanRow) → All (λ r. 0 ≤ r.byte_off) t
  starts [] = tt
  starts (r ∷ t) = (omega arith, starts t)

  built-Placed :
      (size : ℕ) (apart : has_collision assembly ≡ false)
      → row_size hash fields ≡ ok size
      → All (λ f. 0 < byte_count f) fields
      → Placed size (built hash fields 0 (sort_table assembly) (shapes apart))
  unfolding compute_assembly_table
  built-Placed size apart sized wide =
      let (whole, packed, ends) = row_size_covers hash fields size sized in
      let sorted = sort_table assembly in
      let rows = built hash fields 0 sorted (shapes apart) in
      let widths =
        built-All hash fields (λ r. 0 < r.byte_count) (λ r. 0 < r.byte_cnt) (λ r h i w. w) 0 sorted
          (shapes apart)
          (All-sort_table (λ r. 0 < r.byte_count) assembly (fill_table-wide hash fields 0 wide)) in
      let pairs =
        built-Pairwise hash fields 0 sorted (shapes apart)
          (sort_table-Pairwise assembly (Packed-Pairwise 0 assembly packed)) in
      record {
        chain =
            Ascending-Chain 0 (sort_plan_rows rows) (sort_plan_rows-Ascending rows pairs)
              (starts (sort_plan_rows rows)) (All-sort_plan_rows (λ r. 0 < r.byte_cnt) rows widths);
        ends = All-sort_plan_rows (Ends size) rows (
            built-All hash fields (λ r. r.byte_offset + r.byte_count ≤ size) (Ends size)
              (λ r h i w. w) 0 sorted (shapes apart)
              (All-sort_table (λ r. r.byte_offset + r.byte_count ≤ size) assembly ends));
        items =
            built-All hash fields (HasShape hash fields) HasItem (λ r h i w. h.item) 0 sorted
              (shapes apart) (shapes apart);
      }

  module _ (Value : Type 0) (struct_bytes : ℕ → Value → Result (List ℕ))
      (asarray : ℕ → Value → Result (List (List ℕ))) (values : List Value)
      (image : ℕ → List ℕ) where
    -- The value number `i` has a conversion for the field of a row, into the bytes `image i`, which fill it.
    pub record Converts (i : ℕ) (r : OffsetRow) : Type 0 where
      pub place : ℕ
      pub field : FeatureField
      pub declared : get_elem? fields place ≡ some field
      pub hashed : hash field.name ≡ r.name_hash
      pub value : Value
      pub there : get_elem? values i ≡ some value
      pub converts :
          convert Value struct_bytes asarray r.dtype_code r.element_count
            (is_empty field.shape)
            value
          ≡ ok (image i)
      pub wide : length (image i) ≡ r.byte_count

    -- The rows of a table, counted from `i` on
    abbrev pub ConvertsFrom : ℕ → List OffsetRow → Type 0
    ConvertsFrom i [] = Unit
    ConvertsFrom i (r ∷ t) = Converts i r × ConvertsFrom (suc i) t

    abbrev pub ReadsFrom : Memory → ℕ → List OffsetRow → Type 0
    ReadsFrom m i [] = Unit
    ReadsFrom m i (r ∷ t) =
        (read_bytes m r.byte_offset r.byte_count ≡ image i) × ReadsFrom m (suc i) t

    abbrev row_image : PlanRow → List ℕ
    row_image r = image r.value_idx

    abbrev FitsRow : PlanRow → Type 0
    FitsRow = Fits Value struct_bytes asarray values row_image

    same_shape :
        (i : ℕ) (r : OffsetRow) (h : HasShape hash fields r) (c : Converts i r)
        → has_collision assembly ≡ false
        → c.field.shape ≡ h.shape
    unfolding compute_assembly_table
    same_shape i r h c apart =
        let known =
          All-get_elem?
            (λ (f : FeatureField). shape_by_hash hash fields (hash f.name) ≡ some f.shape) fields
            c.place c.field (all-Shaped hash fields 0 apart) c.declared in
        let e : some c.field.shape ≡ some h.shape =
          sym known ∙ ap (shape_by_hash hash fields) c.hashed ∙ h.there in
        cc

    row-Fits :
        (i : ℕ) (r : OffsetRow) (h : HasShape hash fields r)
        → has_collision assembly ≡ false
        → Converts i r
        → FitsRow (plan_row r h.shape i)
    row-Fits i r h apart c = record {
      value = c.value;
      there = c.there;
      converts =
          subst
            (λ s.
              convert Value struct_bytes asarray r.dtype_code r.element_count (is_empty s) c.value
              ≡ ok (image i))
            (same_shape i r h c apart) c.converts;
      wide = c.wide;
      item = h.item;
    }

    built-Fits :
        (i : ℕ) (t : List OffsetRow) (a : All (HasShape hash fields) t)
        → has_collision assembly ≡ false
        → ConvertsFrom i t
        → All FitsRow (built hash fields i t a)
    built-Fits i [] a apart c = tt
    built-Fits i (r ∷ t) a apart c =
        (row-Fits i r a.0 apart c.0, built-Fits (suc i) t a.1 apart c.1)

    built-ReadsFrom :
        (m : Memory) (i : ℕ) (t : List OffsetRow) (a : All (HasShape hash fields) t)
        → All (Reads Value struct_bytes asarray values row_image m) (built hash fields i t a)
        → ReadsFrom m i t
    built-ReadsFrom m i [] a h = tt
    built-ReadsFrom m i (r ∷ t) a h = (h.0, built-ReadsFrom m (suc i) t a.1 h.1)

    abbrev Packs : Memory → ℕ → List OffsetRow → Type 0
    Packs out size table =
        (packed : Memory) × (pack_row_from_list Value struct_bytes asarray hash fields values out
            size
          ≡ ok packed)
        × Keeps 0 size out packed
        × ReadsFrom packed 0 table

    sorted-Packs :
        (out : Memory) (size : ℕ)
        → has_collision assembly ≡ false
        → compute_row_offset_table hash fields ≡ ok (sort_table assembly)
        → row_size hash fields ≡ ok size
        → All (λ f. 0 < byte_count f) fields
        → length values ≡ length (sort_table assembly)
        → ConvertsFrom 0 (sort_table assembly)
        → Packs out size (sort_table assembly)
    unfolding pack_row_from_list build_plan
    sorted-Packs out size apart compiled sized wide same converts =
        let table = sort_table assembly in
        let rows = built hash fields 0 table (shapes apart) in
        let placed = built-Placed size apart sized wide in
        let planned = plan_rows-built hash fields 0 table (shapes apart) in
        let fits =
          All-sort_plan_rows FitsRow rows (built-Fits 0 table (shapes apart) apart converts) in
        let done =
          plan-Packed Value struct_bytes asarray values row_image out size (sort_plan_rows rows)
            placed.chain placed.ends fits in
        (
          done.result,
          rw (compiled, planned, sized, same, ==_self (length table), ==_self size) done.returned,
          done.keeps,
          built-ReadsFrom done.result 0 table (shapes apart) (
              sort_plan_rows-All (Reads Value struct_bytes asarray values row_image done.result)
                rows done.reads),
        )

    -- For a schema that compiles, whose fields are not empty, and as many values as the table has rows, the
    -- i-th of which converts, for the field with the name hash of the i-th row, into bytes that fill
    -- the row: packing into a buffer of the size of a row raises nothing, changes nothing behind the row, and
    -- the bytes at the offset of the i-th row of the table are those of the i-th value.
    pub pack_row_from_list_lem :
        (out : Memory) (size : ℕ) (table : List OffsetRow)
        → compute_row_offset_table hash fields ≡ ok table
        → row_size hash fields ≡ ok size
        → All (λ f. 0 < byte_count f) fields
        → length values ≡ length table
        → ConvertsFrom 0 table
        → (packed : Memory) × (pack_row_from_list Value struct_bytes asarray hash fields values out
              size
            ≡ ok packed)
          × Keeps 0 size out packed
          × ReadsFrom packed 0 table
    pack_row_from_list_lem out size table compiled sized wide same converts =
        let (apart, sorted) = sorted_table table compiled in
        let back = sym sorted in
        subst (Packs out size) sorted (
          sorted-Packs out size apart (compiled ∙ ap ok back) sized wide (same ∙ ap length back)
            (subst (ConvertsFrom 0) back converts))
