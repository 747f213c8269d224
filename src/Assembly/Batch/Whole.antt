-- ===== src/Assembly/Batch/Whole.antt =====
-- `assemble_batch`, beside `assemble`.
use quorin.Base.{
  ℕ, zero, suc, ◌<◌, ◌≡◌, refl, sym, ◌∙◌, ap, arith, Bool, true, false, Option, some, List, [], ◌∷◌,
  leb, ◌==◌, length, get_elem?, contains, Bool-cases, inl, inr, ==→eq, if◌then◌else◌,
}
use quorin.Result.{ok}
use quorin.Memory.{Memory}
use quorin.Schema.{FeatureField, total_element_count, is_empty}
use quorin.Schema.Offsets.{compute_assembly_table}
use quorin.Layout.{SegmentLayout}
use quorin.Segment.Slots.{IsSegment}
use quorin.Assembly.{assemble_core}
use quorin.Assembly.Vector.{assemble_core-length}
use quorin.Assembly.Batch.{
  Buffers, pad_row, range_from, any_empty, take_array, query_at, run_kernel, assemble_batch,
}
use quorin.Assembly.Batch.Rows.{RowIs, visited-RowIs, range_from-contains}

get_elem?-lt :
    (ids : List (List ℕ)) (b : ℕ) (id : List ℕ) → get_elem? ids b ≡ some id → b < length ids
get_elem?-lt [] b id h = cc
get_elem?-lt (x ∷ ids) zero id h = omega arith
get_elem?-lt (x ∷ ids) (suc b) id h = omega (arith, get_elem?-lt ids b id h)

get_elem?-some_id :
    (ids : List (List ℕ)) (b : ℕ) (id : List ℕ)
    → any_empty ids ≡ false
    → get_elem? ids b ≡ some id
    → is_empty id ≡ false
unfolding any_empty
get_elem?-some_id [] b id full h = cc
get_elem?-some_id (x ∷ ids) zero id full h = ground arith
get_elem?-some_id (x ∷ ids) (suc b) id full h = ground (arith, get_elem?-some_id ids b id)

query_at-id :
    (hash : List ℕ → ℕ) (ids : List (List ℕ)) (b : ℕ) (id : List ℕ)
    → get_elem? ids b ≡ some id
    → query_at hash ids b ≡ record { id_hash = hash id; padded = pad_row id; len = length id }
unfolding query_at
query_at-id hash [] b id h = cc
query_at-id hash (x ∷ ids) zero id h =
    let e : x ≡ id = cc in ap (λ (i : List ℕ). query_at hash (i ∷ ids) 0) e
query_at-id hash (x ∷ ids) (suc b) id h = query_at-id hash ids b id h

module _ (cast : ℕ → List ℕ → ℕ) (hash : List ℕ → ℕ) (parallel_threshold : ℕ) (blank : Buffers)
    (order : List ℕ) where
  kernel-visits :
      (n b : ℕ)
      → ((i : ℕ) → i < n → contains i order ≡ true)
      → b < n
      → contains b (if leb parallel_threshold n then order else range_from 0 n) ≡ true
  kernel-visits n b all lt = elim (Bool-cases (leb parallel_threshold n)) [
    | inl y ↦ rw y (all b lt)
    | inr k ↦ rw k (range_from-contains n 0 b (omega arith) (omega arith))
  ]

  module _ {buf : Memory} {l : SegmentLayout} (inv : IsSegment hash buf l) (name_hash : List ℕ → ℕ)
      (fields : List FeatureField)
      (table : l.assembly_table ≡ compute_assembly_table name_hash fields)
      (elements : l.total_element_count ≡ total_element_count fields) where
    vector-sized :
        (offset : ℕ)
        → length (assemble_core cast buf offset l.assembly_table) ≡ l.total_element_count
    unfolding compute_assembly_table
    vector-sized offset =
        ap (λ t. length (assemble_core cast buf offset t)) table
        ∙ assemble_core-length cast name_hash buf offset 0 fields
        ∙ sym elements

    kernel-rows :
        (ids : List (List ℕ)) (to : Buffers)
        → any_empty ids ≡ false
        → ((b : ℕ) → b < length ids → contains b order ≡ true)
        → ((b : ℕ) → b < length ids → length (to.out b) ≡ l.total_element_count)
        → (b : ℕ) (id : List ℕ) → get_elem? ids b ≡ some id
        → RowIs cast hash buf l id
            ((run_kernel cast hash parallel_threshold blank order buf l ids to).out b)
            ((run_kernel cast hash parallel_threshold blank order buf l ids to).found_mask b)
    unfolding run_kernel
    kernel-rows ids to full all wide b id at =
        let lt = get_elem?-lt ids b id at in
        visited-RowIs cast hash inv vector-sized (query_at hash ids) id b
          (if leb parallel_threshold (length ids) then order else range_from 0 (length ids)) to
          (get_elem?-some_id ids b id full at) (query_at-id hash ids b id at) (wide b lt)
          (kernel-visits (length ids) b all lt)

    -- In a well-formed segment whose layout has the tables of the schema, `assemble_batch` of ids that
    -- are not empty, with arrays that fit, raises nothing, whichever kernel runs. If the parallel
    -- kernel visits every row, in any order, and whatever the arrays held: where `assemble` returns a
    -- vector for an id, its row is this vector and its mark is set; where `assemble` raises
    -- EntityNotFoundError, its row is zeros and its mark is cleared.
    pub assemble_batch_lem :
        (ids : List (List ℕ)) (out : Option (Bool × (ℕ → List ℕ)))
        (found_mask : Option (Bool × (ℕ → Bool))) (rows : ℕ → List ℕ) (marks : ℕ → Bool)
        → any_empty ids ≡ false
        → ((b : ℕ) → b < length ids → contains b order ≡ true)
        → take_array out blank.out ≡ ok rows
        → take_array found_mask blank.found_mask ≡ ok marks
        → ((b : ℕ) → b < length ids → length (rows b) ≡ l.total_element_count)
        → (to : Buffers) × (assemble_batch cast hash parallel_threshold blank order buf l ids out
              found_mask
            ≡ ok to)
          × ((b : ℕ) (id : List ℕ)
              → get_elem? ids b ≡ some id
              → RowIs cast hash buf l id (to.out b) (to.found_mask b))
    unfolding assemble_batch
    assemble_batch_lem ids out found_mask rows marks full all given given_marks wide =
        let start : Buffers = record { out = rows; found_mask = marks } in
        elim (Bool-cases (length ids == 0)) [
          | inl none_asked ↦ (
            start,
            rw (given, given_marks, full, none_asked) refl,
            λ b id at.
                let lt = get_elem?-lt ids b id at in
                absurd (omega (arith, ==→eq (length ids) 0 none_asked)),
          )
          | inr asked ↦ (
            run_kernel cast hash parallel_threshold blank order buf l ids start,
            rw (given, given_marks, full, asked) refl,
            kernel-rows ids start full all wide,
          )
        ]
