-- ===== src/Evolution/Complete.antt =====
-- The converse of the upgrade rules.
use quorin.Base.{
  ◌∙◌, ◌↔◌, ℕ, ◌<◌, ◌≡◌, refl, arith, subst, true, Option, none, List, [], ◌∷◌, ◌++◌, leb, length,
  bytes_eq, bytes_eq_self, Option-cases, inl, inr, All,
}
use quorin.Schema.{FeatureField, FeatureSchema}
use quorin.Evolution.{
  Reason, find_field, reason_if, removed_reason, changed_reasons, shape_reasons, added_reason,
  each_field, no_reason, can_upgrade,
}
use quorin.Evolution.Rules.{
  can_upgrade-IsUpgrade, no_reason-append, KeepsField, IsUpgrade, widens-eq,
}

each_field-none :
    (reasons : FeatureField → Option FeatureField → List Reason) (fs others : List FeatureField)
    → All (λ f. no_reason (reasons f (find_field f.name others)) ≡ true) fs
    → no_reason (each_field reasons fs others) ≡ true
unfolding each_field
each_field-none reasons [] others a = refl
each_field-none reasons (f ∷ fs) others a =
    let split =
      no_reason-append (reasons f (find_field f.name others)) (each_field reasons fs others) in
    let rest = each_field-none reasons fs others a.1 in let first = a.0 in ground (arith, split)

module _ (new : List FeatureField) where
  kept_shape : (f : FeatureField) (k : KeepsField new f) → bytes_eq f.shape k.field.shape ≡ true
  kept_shape f k = subst (λ s. bytes_eq f.shape s ≡ true) k.same_shape (bytes_eq_self f.shape)

  kept_length : (f : FeatureField) (k : KeepsField new f) → length k.field.shape < 2
  kept_length f k = subst (λ (s : List ℕ). length s < 2) k.same_shape k.flat

  none_removed :
      (fs : List FeatureField)
      → All (KeepsField new) fs
      → All (λ f. no_reason (removed_reason f (find_field f.name new)) ≡ true) fs
  unfolding removed_reason
  none_removed [] a = tt
  none_removed (f ∷ fs) a = (rw (a.0.present) refl, none_removed fs a.1)

  none_changed :
      (fs : List FeatureField)
      → All (KeepsField new) fs
      → All (λ f. no_reason (changed_reasons f (find_field f.name new)) ≡ true) fs
  unfolding changed_reasons
  none_changed [] a = tt
  none_changed (f ∷ fs) a =
      let k = a.0 in
      (
        rw (k.present, kept_shape f k, widens-eq f.dtype k.field.dtype ∙ k.widened) refl,
        none_changed fs a.1,
      )

  none_shaped :
      (fs : List FeatureField)
      → All (KeepsField new) fs
      → All (λ f. no_reason (shape_reasons f (find_field f.name new)) ≡ true) fs
  unfolding shape_reasons
  none_shaped [] a = tt
  none_shaped (f ∷ fs) a =
      let k = a.0 in
      let short = kept_length f k in
      let flat = k.flat in (rw (k.present) (ground arith), none_shaped fs a.1)

none_added :
    (old gs : List FeatureField)
    → All (λ g. (find_field g.name old ≡ none) → length g.shape < 2) gs
    → All (λ g. no_reason (added_reason g (find_field g.name old)) ≡ true) gs
unfolding added_reason
none_added old [] a = tt
none_added old (g ∷ gs) a = (
  elim (Option-cases (find_field g.name old)) [
    | inl e ↦ let flat = a.0 e in rw e (ground arith)
    | inr (f, e) ↦ rw e refl
  ],
  none_added old gs a.1,
)

IsUpgrade-can_upgrade :
    (old new : FeatureSchema) → IsUpgrade old new → (can_upgrade old new).0 ≡ true
unfolding can_upgrade
IsUpgrade-can_upgrade old new up =
    let removed = each_field removed_reason old.fields new.fields in
    let changed = each_field changed_reasons old.fields new.fields in
    let shapes = each_field shape_reasons old.fields new.fields in
    let added = each_field added_reason new.fields old.fields in
    let version = reason_if (leb new.version old.version) Reason.version_not_greater in
    let s₁ = no_reason-append version (removed ++ (changed ++ (shapes ++ added))) in
    let s₂ = no_reason-append removed (changed ++ (shapes ++ added)) in
    let s₃ = no_reason-append changed (shapes ++ added) in
    let s₄ = no_reason-append shapes added in
    let r =
      each_field-none removed_reason old.fields new.fields
        (none_removed new.fields old.fields up.keeps) in
    let c =
      each_field-none changed_reasons old.fields new.fields
        (none_changed new.fields old.fields up.keeps) in
    let s =
      each_field-none shape_reasons old.fields new.fields
        (none_shaped new.fields old.fields up.keeps) in
    let a =
      each_field-none added_reason new.fields old.fields
        (none_added old.fields new.fields up.adds_flat) in
    let later = up.later in ground (arith, s₁, s₂, s₃, s₄, r, c, s, a)

-- `can_upgrade` accepts an upgrade if and only if the version increases, the new schema has every field of
-- the old one, with the same shape of at most one dimension and a dtype of the same kind (float, signed,
-- unsigned) in at least as many bytes, or a signed integer for an unsigned one in more bytes, and every
-- field that it adds has at most one dimension.
pub can_upgrade_lem :
    (old new : FeatureSchema) → ((can_upgrade old new).0 ≡ true) ↔ IsUpgrade old new
can_upgrade_lem old new = (can_upgrade-IsUpgrade old new, IsUpgrade-can_upgrade old new)
