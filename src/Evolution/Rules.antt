-- ===== src/Evolution/Rules.antt =====
-- What `can_upgrade` decides.
use quorin.Base.{
  Bool, false, ◌||◌, ltb, sym, ◌∙◌, ◌≤◌, ◌<◌, ◌≡◌, refl, arith, true, ◌&&◌, Option, none, some,
  List, [], ◌∷◌, ◌++◌, leb, length, bytes_eq, bytes_eq→eq, All,
}
use quorin.Schema.{
  DType, float32, float64, int32, int64, uint8, dtype_byte_size, FeatureField, FeatureSchema,
}
use quorin.Evolution.{
  widens, Reason, find_field, reason_if, removed_reason, changed_reasons, shape_reasons,
  added_reason, each_field, no_reason, can_upgrade,
}

pub no_reason-append : (xs ys : List Reason) → no_reason (xs ++ ys) ≡ (no_reason xs && no_reason ys)
no_reason-append [] ys = refl
no_reason-append (x ∷ xs) ys = refl

-- A loop that finds no reason finds none for any field.
each_field-All :
    (reasons : FeatureField → Option FeatureField → List Reason) (fs others : List FeatureField)
    → no_reason (each_field reasons fs others) ≡ true
    → All (λ f. no_reason (reasons f (find_field f.name others)) ≡ true) fs
unfolding each_field
each_field-All reasons [] others h = tt
each_field-All reasons (f ∷ fs) others h =
    let split =
      no_reason-append (reasons f (find_field f.name others)) (each_field reasons fs others) in
    let rest = each_field-All reasons fs others in
    (ground (arith, split), rest (ground (arith, split)))

dtype_byte_size-widens : (a b : DType) → widens a b ≡ true → dtype_byte_size a ≤ dtype_byte_size b
unfolding widens dtype_byte_size
dtype_byte_size-widens float32 b =
    elim b as (λ b. widens float32 b ≡ true → dtype_byte_size float32 ≤ dtype_byte_size b) [
      | float32 ↦ λ h. omega arith
      | float64 ↦ λ h. omega arith
      | int32 ↦ λ h. cc
      | int64 ↦ λ h. cc
      | uint8 ↦ λ h. cc
    ]
dtype_byte_size-widens float64 b =
    elim b as (λ b. widens float64 b ≡ true → dtype_byte_size float64 ≤ dtype_byte_size b) [
      | float32 ↦ λ h. cc
      | float64 ↦ λ h. omega arith
      | int32 ↦ λ h. cc
      | int64 ↦ λ h. cc
      | uint8 ↦ λ h. cc
    ]
dtype_byte_size-widens int32 b =
    elim b as (λ b. widens int32 b ≡ true → dtype_byte_size int32 ≤ dtype_byte_size b) [
      | float32 ↦ λ h. cc
      | float64 ↦ λ h. cc
      | int32 ↦ λ h. omega arith
      | int64 ↦ λ h. omega arith
      | uint8 ↦ λ h. cc
    ]
dtype_byte_size-widens int64 b =
    elim b as (λ b. widens int64 b ≡ true → dtype_byte_size int64 ≤ dtype_byte_size b) [
      | float32 ↦ λ h. cc
      | float64 ↦ λ h. cc
      | int32 ↦ λ h. cc
      | int64 ↦ λ h. omega arith
      | uint8 ↦ λ h. cc
    ]
dtype_byte_size-widens uint8 b =
    elim b as (λ b. widens uint8 b ≡ true → dtype_byte_size uint8 ≤ dtype_byte_size b) [
      | float32 ↦ λ h. cc
      | float64 ↦ λ h. cc
      | int32 ↦ λ h. omega arith
      | int64 ↦ λ h. omega arith
      | uint8 ↦ λ h. omega arith
    ]

-- Floating-point numbers, signed and unsigned integers
pub data Kind : Type 0 where
  floating signed unsigned : Kind

abbrev pub kind : DType → Kind
kind float32 = floating
kind float64 = floating
kind int32 = signed
kind int64 = signed
kind uint8 = unsigned

abbrev pub keeps_kind : Kind → Kind → Bool
keeps_kind floating floating = true
keeps_kind signed signed = true
keeps_kind unsigned unsigned = true
keeps_kind _ _ = false

abbrev pub gains_sign : Kind → Kind → Bool
gains_sign unsigned signed = true
gains_sign _ _ = false

-- The same kind of number in at least as many bytes, or a signed integer for an unsigned one in more
abbrev pub wider : DType → DType → Bool
wider a b =
    (keeps_kind (kind a) (kind b) && leb (dtype_byte_size a) (dtype_byte_size b))
    || (gains_sign (kind a) (kind b) && ltb (dtype_byte_size a) (dtype_byte_size b))

-- The table of widenings is what the kinds and the sizes of the dtypes say.
pub widens-eq : (a b : DType) → widens a b ≡ wider a b
unfolding widens dtype_byte_size
widens-eq float32 float32 = refl
widens-eq float32 float64 = refl
widens-eq float32 int32 = refl
widens-eq float32 int64 = refl
widens-eq float32 uint8 = refl
widens-eq float64 float32 = refl
widens-eq float64 float64 = refl
widens-eq float64 int32 = refl
widens-eq float64 int64 = refl
widens-eq float64 uint8 = refl
widens-eq int32 float32 = refl
widens-eq int32 float64 = refl
widens-eq int32 int32 = refl
widens-eq int32 int64 = refl
widens-eq int32 uint8 = refl
widens-eq int64 float32 = refl
widens-eq int64 float64 = refl
widens-eq int64 int32 = refl
widens-eq int64 int64 = refl
widens-eq int64 uint8 = refl
widens-eq uint8 float32 = refl
widens-eq uint8 float64 = refl
widens-eq uint8 int32 = refl
widens-eq uint8 int64 = refl
widens-eq uint8 uint8 = refl

-- What the rules say of a field `f` of the old schema: the new one has it, with the same shape of at
-- most one dimension, and a dtype that is wider, or the same
pub record KeepsField (new : List FeatureField) (f : FeatureField) : Type 0 where
  pub field : FeatureField
  pub present : find_field f.name new ≡ some field
  pub same_shape : f.shape ≡ field.shape
  pub flat : length f.shape < 2
  pub widened : wider f.dtype field.dtype ≡ true
  pub grows : dtype_byte_size f.dtype ≤ dtype_byte_size field.dtype

pub record IsUpgrade (old new : FeatureSchema) : Type 0 where
  pub later : old.version < new.version
  pub keeps : All (KeepsField new.fields) old.fields
  pub adds_flat : All (λ g. (find_field g.name old.fields ≡ none) → length g.shape < 2) new.fields

field-KeepsField :
    (new : List FeatureField) (f : FeatureField) (o : Option FeatureField)
    → find_field f.name new ≡ o
    → no_reason (removed_reason f o) ≡ true
    → no_reason (changed_reasons f o) ≡ true
    → no_reason (shape_reasons f o) ≡ true
    → KeepsField new f
unfolding removed_reason changed_reasons shape_reasons
field-KeepsField new f none e a b c = cc
field-KeepsField new f (some g) e a b c =
    let wide : widens f.dtype g.dtype ≡ true = ground arith in
    let equal : bytes_eq f.shape g.shape ≡ true = ground arith in
    record {
      field = g;
      present = e;
      same_shape = bytes_eq→eq f.shape g.shape equal;
      flat = ground arith;
      widened = sym (widens-eq f.dtype g.dtype) ∙ wide;
      grows = dtype_byte_size-widens f.dtype g.dtype wide;
    }

fields_keep :
    (new fs : List FeatureField)
    → All (λ f. no_reason (removed_reason f (find_field f.name new)) ≡ true) fs
    → All (λ f. no_reason (changed_reasons f (find_field f.name new)) ≡ true) fs
    → All (λ f. no_reason (shape_reasons f (find_field f.name new)) ≡ true) fs
    → All (KeepsField new) fs
fields_keep new [] a b c = tt
fields_keep new (f ∷ fs) a b c = (
  field-KeepsField new f (find_field f.name new) refl a.0 b.0 c.0,
  fields_keep new fs a.1 b.1 c.1,
)

fields_flat :
    (old gs : List FeatureField)
    → All (λ g. no_reason (added_reason g (find_field g.name old)) ≡ true) gs
    → All (λ g. (find_field g.name old ≡ none) → length g.shape < 2) gs
unfolding added_reason
fields_flat old [] a = tt
fields_flat old (g ∷ gs) a = (
  λ absent.
      let none_found : no_reason (added_reason g none) ≡ true = rw absent at a.0 in ground arith,
  fields_flat old gs a.1,
)

-- What follows from acceptance
pub can_upgrade-IsUpgrade :
    (old new : FeatureSchema) → (can_upgrade old new).0 ≡ true → IsUpgrade old new
unfolding can_upgrade
can_upgrade-IsUpgrade old new h =
    let removed = each_field removed_reason old.fields new.fields in
    let changed = each_field changed_reasons old.fields new.fields in
    let shapes = each_field shape_reasons old.fields new.fields in
    let added = each_field added_reason new.fields old.fields in
    let version = reason_if (leb new.version old.version) Reason.version_not_greater in
    let s₁ = no_reason-append version (removed ++ (changed ++ (shapes ++ added))) in
    let s₂ = no_reason-append removed (changed ++ (shapes ++ added)) in
    let s₃ = no_reason-append changed (shapes ++ added) in
    let s₄ = no_reason-append shapes added in
    record {
      later = ground (arith, s₁);
      keeps =
          fields_keep new.fields old.fields
            (each_field-All removed_reason old.fields new.fields (ground (arith, s₁, s₂)))
            (each_field-All changed_reasons old.fields new.fields (ground (arith, s₁, s₂, s₃)))
            (each_field-All shape_reasons old.fields new.fields (ground (arith, s₁, s₂, s₃, s₄)));
      adds_flat =
          fields_flat old.fields new.fields
            (each_field-All added_reason new.fields old.fields (ground (arith, s₁, s₂, s₃, s₄)));
    }
