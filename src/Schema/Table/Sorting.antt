-- ===== src/Schema/Table/Sorting.antt =====
-- The compiled table and the declared rows.
use mathlib.Core.List.{Perm}
use mathlib.Core.List.Perm
use quorin.Base.{
  ℕ, ◌<◌, ◌≤◌, ◌≡◌, ◌⊎◌, refl, ◌∙◌, arith, true, false, ◌||◌, List, [], ◌∷◌, ltb, ◌==◌, Bool-cases,
  inl, inr, All,
}
use quorin.Result.{ok, err, value_error}
use quorin.Schema.{FeatureField}
use quorin.Schema.Offsets.{OffsetRow, fill_table, field_byte_offsets}
use quorin.Schema.Table.{
  header_size, insert_row, sort_table, contains_hash, has_collision, compile_schema,
}

abbrev AllFrom : ℕ → List OffsetRow → Type 0
AllFrom h = All (λ s. h ≤ s.name_hash)

abbrev IsOrdered : List OffsetRow → Type 0
IsOrdered [] = Unit
IsOrdered (r ∷ t) = AllFrom r.name_hash t × IsOrdered t

-- The name hashes increase strictly, as `np.searchsorted` needs it.
abbrev pub IsSorted : List OffsetRow → Type 0
IsSorted [] = Unit
IsSorted (r ∷ t) = All (λ s. r.name_hash < s.name_hash) t × IsSorted t

AllFrom-le : (g h : ℕ) (t : List OffsetRow) → g ≤ h → AllFrom h t → AllFrom g t
AllFrom-le g h [] le a = tt
AllFrom-le g h (s ∷ t) le a = (omega arith, AllFrom-le g h t le a.1)

insert_row-AllFrom :
    (h : ℕ) (r : OffsetRow) (t : List OffsetRow)
    → h ≤ r.name_hash
    → AllFrom h t
    → AllFrom h (insert_row r t)
unfolding insert_row
insert_row-AllFrom h r [] le a = (le, tt)
insert_row-AllFrom h r (s ∷ t) le a =
    ground (arith, insert_row-AllFrom h r t, AllFrom-le h r.name_hash t)

insert_row-IsOrdered :
    (r : OffsetRow) (t : List OffsetRow) → IsOrdered t → IsOrdered (insert_row r t)
unfolding insert_row
insert_row-IsOrdered r [] o = (tt, tt)
insert_row-IsOrdered r (s ∷ t) o = elim (Bool-cases (ltb s.name_hash r.name_hash)) [
  | inl lt ↦
      rw lt (insert_row-AllFrom s.name_hash r t (ground arith) o.0, insert_row-IsOrdered r t o.1)
  | inr ge ↦
      let le : r.name_hash ≤ s.name_hash = ground arith in
      rw ge ((le, AllFrom-le r.name_hash s.name_hash t le o.0), o)
]

sort_table-IsOrdered : (t : List OffsetRow) → IsOrdered (sort_table t)
unfolding sort_table
sort_table-IsOrdered [] = tt
sort_table-IsOrdered (r ∷ t) = insert_row-IsOrdered r (sort_table t) (sort_table-IsOrdered t)

-- What holds of all rows of a table holds of them in any order.
pub All-insert_row {ℓ} :
    (P : OffsetRow → Type ℓ) (r : OffsetRow) (t : List OffsetRow)
    → P r
    → All P t
    → All P (insert_row r t)
unfolding insert_row
All-insert_row P r [] p a = (p, tt)
All-insert_row P r (s ∷ t) p a = elim (Bool-cases (ltb s.name_hash r.name_hash)) [
  | inl lt ↦ rw lt (a.0, All-insert_row P r t p a.1)
  | inr ge ↦ rw ge (p, a)
]

pub All-sort_table {ℓ} :
    (P : OffsetRow → Type ℓ) (t : List OffsetRow) → All P t → All P (sort_table t)
unfolding sort_table
All-sort_table P [] a = tt
All-sort_table P (r ∷ t) a = All-insert_row P r (sort_table t) a.0 (All-sort_table P t a.1)

insert_row-perm : (r : OffsetRow) (t : List OffsetRow) → Perm (insert_row r t) (r ∷ t)
unfolding insert_row
insert_row-perm r [] = Perm.refl (r ∷ [])
insert_row-perm r (s ∷ t) = elim (Bool-cases (ltb s.name_hash r.name_hash)) [
  | inl lt ↦ rw lt (Perm.trans (Perm.cons s (insert_row-perm r t)) (Perm.swap r s t))
  | inr ge ↦ rw ge (Perm.refl (r ∷ s ∷ t))
]

pub sort_table-perm : (t : List OffsetRow) → Perm (sort_table t) t
unfolding sort_table
sort_table-perm [] = Perm.refl []
sort_table-perm (r ∷ t) =
    Perm.trans (insert_row-perm r (sort_table t)) (Perm.cons r (sort_table-perm t))

contains_hash-insert_row :
    (h : ℕ) (r : OffsetRow) (t : List OffsetRow)
    → contains_hash h (insert_row r t) ≡ (h == r.name_hash) || contains_hash h t
unfolding insert_row
contains_hash-insert_row h r [] = refl
contains_hash-insert_row h r (s ∷ t) = ground (arith, contains_hash-insert_row h r t)

has_collision-insert_row :
    (r : OffsetRow) (t : List OffsetRow)
    → has_collision (insert_row r t) ≡ contains_hash r.name_hash t || has_collision t
unfolding insert_row
has_collision-insert_row r [] = refl
has_collision-insert_row r (s ∷ t) =
    ground (arith, has_collision-insert_row r t, contains_hash-insert_row s.name_hash r t)

contains_hash-sort_table :
    (h : ℕ) (t : List OffsetRow) → contains_hash h (sort_table t) ≡ contains_hash h t
unfolding sort_table
contains_hash-sort_table h [] = refl
contains_hash-sort_table h (r ∷ t) =
    rw (contains_hash-insert_row h r (sort_table t), contains_hash-sort_table h t)

pub has_collision-sort_table : (t : List OffsetRow) → has_collision (sort_table t) ≡ has_collision t
unfolding sort_table
has_collision-sort_table [] = refl
has_collision-sort_table (r ∷ t) = rw (
  has_collision-insert_row r (sort_table t),
  contains_hash-sort_table r.name_hash t,
  has_collision-sort_table t,
)

AllFrom-strict :
    (h : ℕ) (t : List OffsetRow)
    → contains_hash h t ≡ false
    → AllFrom h t
    → All (λ s. h < s.name_hash) t
AllFrom-strict h [] n a = tt
AllFrom-strict h (s ∷ t) n a = (ground arith, AllFrom-strict h t (ground arith) a.1)

IsOrdered-strict : (t : List OffsetRow) → has_collision t ≡ false → IsOrdered t → IsSorted t
IsOrdered-strict [] n o = tt
IsOrdered-strict (r ∷ t) n o =
    (AllFrom-strict r.name_hash t (ground arith) o.0, IsOrdered-strict t (ground arith) o.1)

module _ (hash : List ℕ → ℕ) (fields : List FeatureField) where
  abbrev pub declared : List OffsetRow
  declared = fill_table hash fields (field_byte_offsets fields header_size)

  -- Either the compiled table holds exactly the declared rows, by strictly increasing name hash,
  -- and no two fields share a name hash, or two of them do, and the compilation raises ValueError.
  pub compile_schema_lem :
      ((table : List OffsetRow) × (compile_schema hash fields ≡ ok table)
        × IsSorted table
        × Perm table declared
        × (has_collision declared ≡ false))
      ⊎ ((compile_schema hash fields ≡ err value_error) × (has_collision declared ≡ true))
  unfolding compile_schema
  compile_schema_lem =
      let same = has_collision-sort_table declared in
      let perm = sort_table-perm declared in
      elim (Bool-cases (has_collision declared)) [
        | inl clash ↦ inr (rw (same ∙ clash) refl, clash)
        | inr apart ↦ inl (
          sort_table declared,
          rw (same ∙ apart) refl,
          IsOrdered-strict (sort_table declared) (same ∙ apart) (sort_table-IsOrdered declared),
          perm,
          apart,
        )
      ]
