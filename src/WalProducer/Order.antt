-- ===== src/WalProducer/Order.antt =====
-- The order in which a producer packs the values: `field_order_for`.
use mathlib.Core.List.{Perm}
use mathlib.Core.List.Perm
use quorin.Base.{
  ℕ, ◌+◌, ◌≡◌, refl, sym, ◌∙◌, ap, ap₂, subst, arith, false, Option, none, some, List, [], ◌∷◌, map,
  All, ==_self,
}
use quorin.Result.{ok, value_error, raise_if-eq-ok}
use quorin.Align.{align_up}
use quorin.Schema.{FeatureField, byte_count}
use quorin.Schema.Offsets.{OffsetRow, fill_table, field_row, field_byte_offsets}
use quorin.Schema.Table.{header_size, sort_table, contains_hash, has_collision, compile_schema}
use quorin.Schema.Table.Sorting.{
  sort_table-perm, All-sort_table, has_collision-sort_table, declared,
}
use quorin.WalProducer.{hash_to_name, named, order_of, field_order_for}

module _ (hash : List ℕ → ℕ) where
  abbrev Names : List FeatureField → FeatureField → Type 0
  Names fields f = hash_to_name hash fields (hash f.name) ≡ some f.name

  hash_to_name-later :
      (g : FeatureField) (fs : List FeatureField) (h : ℕ) (name : List ℕ)
      → hash_to_name hash fs h ≡ some name
      → hash_to_name hash (g ∷ fs) h ≡ some name
  unfolding hash_to_name
  hash_to_name-later g fs h name e = rw e refl

  hash_to_name-none :
      (fs : List FeatureField) (c h : ℕ)
      → contains_hash h (fill_table hash fs (field_byte_offsets fs c)) ≡ false
      → hash_to_name hash fs h ≡ none
  unfolding hash_to_name fill_table field_byte_offsets field_row
  hash_to_name-none [] c h apart = refl
  hash_to_name-none (f ∷ fs) c h apart =
      let rest = hash_to_name-none fs (align_up c 64 + byte_count f) h (ground arith) in
      rw rest (ground arith)

  Names-later :
      (g : FeatureField) (fs ks : List FeatureField) → All (Names fs) ks → All (Names (g ∷ fs)) ks
  Names-later g fs [] a = tt
  Names-later g fs (k ∷ ks) a =
      (hash_to_name-later g fs (hash k.name) k.name a.0, Names-later g fs ks a.1)

  all-Names :
      (fs : List FeatureField) (c : ℕ)
      → has_collision (fill_table hash fs (field_byte_offsets fs c)) ≡ false
      → All (Names fs) fs
  unfolding fill_table field_byte_offsets field_row
  all-Names [] c apart = tt
  all-Names (f ∷ fs) c apart =
      let next = align_up c 64 + byte_count f in
      (
        first f fs (hash_to_name-none fs next (hash f.name) (ground arith)),
        Names-later f fs fs (all-Names fs next (ground arith)),
      )
    where
      first :
          (f : FeatureField) (fs : List FeatureField)
          → hash_to_name hash fs (hash f.name) ≡ none
          → Names (f ∷ fs) f
      first f fs e = unfold hash_to_name in rw (e, ==_self (hash f.name)) refl

  abbrev the_name : Option (List ℕ) → List ℕ
  the_name none = []
  the_name (some name) = name

  module _ (fields : List FeatureField) where
    abbrev row_name : OffsetRow → List ℕ
    row_name r = the_name (hash_to_name hash fields r.name_hash)

    -- The hash of a row is that of a name of the schema.
    abbrev IsNamed : OffsetRow → Type 0
    IsNamed r =
        (name : List ℕ) × (hash_to_name hash fields r.name_hash ≡ some name)
        × (hash name ≡ r.name_hash)

    order_of-map :
        (t : List OffsetRow) → All IsNamed t → order_of hash fields t ≡ ok (map row_name t)
    unfolding order_of named
    order_of-map [] a = refl
    order_of-map (r ∷ t) a = let (name, e, same) = a.0 in rw (e, order_of-map t a.1) refl

    hashes :
        (t : List OffsetRow) → All IsNamed t → map hash (map row_name t) ≡ map (λ r. r.name_hash) t
    hashes [] a = refl
    hashes (r ∷ t) a =
        let (name, e, same) = a.0 in ap₂ ◌∷◌ (ap (λ o. hash (the_name o)) e ∙ same) (hashes t a.1)

    declared-IsNamed :
        (fs : List FeatureField) (c : ℕ)
        → All (Names fields) fs
        → All IsNamed (fill_table hash fs (field_byte_offsets fs c))
    unfolding fill_table field_byte_offsets field_row
    declared-IsNamed [] c a = tt
    declared-IsNamed (f ∷ fs) c a =
        ((f.name, a.0, refl), declared-IsNamed fs (align_up c 64 + byte_count f) a.1)

    map-row_name :
        (fs : List FeatureField) (c : ℕ)
        → All (Names fields) fs
        → map row_name (fill_table hash fs (field_byte_offsets fs c)) ≡ map (λ f. f.name) fs
    unfolding fill_table field_byte_offsets field_row
    map-row_name [] c a = refl
    map-row_name (f ∷ fs) c a =
        ap₂ ◌∷◌ (ap the_name a.0) (map-row_name fs (align_up c 64 + byte_count f) a.1)

    compiled_table :
        (table : List OffsetRow)
        → compile_schema hash fields ≡ ok table
        → (sort_table (declared hash fields) ≡ table)
          × (has_collision (declared hash fields) ≡ false)
    unfolding compile_schema
    compiled_table table compiled =
        let sorted = sort_table (declared hash fields) in
        let (apart, e) = raise_if-eq-ok (has_collision sorted) value_error (ok sorted) compiled in
        (cc, sym (has_collision-sort_table (declared hash fields)) ∙ apart)

    -- If the schema compiles, the order in which a producer packs the values has every field of the
    -- schema, each as often as the schema does, and the i-th name has the hash of the i-th row of the table.
    pub field_order_for_lem :
        (table : List OffsetRow)
        → compile_schema hash fields ≡ ok table
        → (order : List (List ℕ)) × (field_order_for hash fields ≡ ok order)
          × (map hash order ≡ map (λ r. r.name_hash) table)
          × Perm order (map (λ f. f.name) fields)
    unfolding field_order_for
    field_order_for_lem table compiled =
        let (sorted, apart) = compiled_table table compiled in
        let names = all-Names fields header_size apart in
        let all = subst (All IsNamed) sorted (
          All-sort_table IsNamed (declared hash fields)
            (declared-IsNamed fields header_size names)) in
        (
          map row_name table,
          rw (compiled, order_of-map table all) refl,
          hashes table all,
          subst (λ t. Perm (map row_name t) (map (λ f. f.name) fields)) sorted
              (subst (Perm (map row_name (sort_table (declared hash fields))))
                (map-row_name fields header_size names)
                (Perm.map row_name (sort_table-perm (declared hash fields)))),
        )
