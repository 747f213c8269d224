-- ===== src/Evolution.antt =====
-- quorin/evolution.py: `can_upgrade` and its table of widenings. A message is a constructor of `Reason`.
-- Field names of a schema are distinct, so that iterating over the fields is iterating over the dict.
pub mod Rules
pub mod Complete
mod Tests
use quorin.Base.{
  ℕ, Bool, true, false, not, ◌&&◌, ◌||◌, Option, none, some, List, [], ◌∷◌, ◌++◌, leb, length,
  bytes_eq, if◌then◌else◌,
}
use quorin.Schema.{DType, float32, float64, int32, int64, uint8, FeatureField, FeatureSchema}

-- `(old, new) in _DTYPE_WIDENING`
unfoldable pub widens : DType → DType → Bool
widens float32 float32 = true
widens float32 float64 = true
widens float64 float64 = true
widens int32 int32 = true
widens int32 int64 = true
widens int64 int64 = true
widens uint8 uint8 = true
widens uint8 int32 = true
widens uint8 int64 = true
widens float32 int32 = false
widens float32 int64 = false
widens float32 uint8 = false
widens float64 float32 = false
widens float64 int32 = false
widens float64 int64 = false
widens float64 uint8 = false
widens int32 float32 = false
widens int32 float64 = false
widens int32 uint8 = false
widens int64 float32 = false
widens int64 float64 = false
widens int64 int32 = false
widens int64 uint8 = false
widens uint8 float32 = false
widens uint8 float64 = false

pub data Reason : Type 0 where
  version_not_greater : Reason
  field_removed : List ℕ → Reason
  shape_changed not_a_widening two_dimensional new_two_dimensional : List ℕ → Reason

-- `fields_by_name.get(name)`
unfoldable pub find_field : List ℕ → List FeatureField → Option FeatureField
find_field name [] = none
find_field name (f ∷ fs) = if bytes_eq f.name name then some f else find_field name fs

abbrev pub reason_if : Bool → Reason → List Reason
reason_if true r = r ∷ []
reason_if false r = []

-- The names of `removed`, one by one
unfoldable pub removed_reason : FeatureField → Option FeatureField → List Reason
removed_reason f none = field_removed f.name ∷ []
removed_reason f (some g) = []

-- The first loop, over the fields that both schemas have
unfoldable pub changed_reasons : FeatureField → Option FeatureField → List Reason
changed_reasons f none = []
changed_reasons f (some g) =
    reason_if (not (bytes_eq f.shape g.shape)) (shape_changed f.name)
    ++ reason_if (not (widens f.dtype g.dtype)) (not_a_widening f.name)

-- The second loop
unfoldable pub shape_reasons : FeatureField → Option FeatureField → List Reason
shape_reasons f none = []
shape_reasons f (some g) =
    reason_if (leb 2 (length f.shape) || leb 2 (length g.shape)) (two_dimensional f.name)

-- The third loop, over the new schema
unfoldable pub added_reason : FeatureField → Option FeatureField → List Reason
added_reason g none = reason_if (leb 2 (length g.shape)) (new_two_dimensional g.name)
added_reason g (some f) = []

-- A loop over the fields of one schema, with what the other schema has under the same name
unfoldable pub each_field :
    (FeatureField → Option FeatureField → List Reason)
    → List FeatureField
    → List FeatureField
    → List Reason
each_field reasons [] others = []
each_field reasons (f ∷ fs) others =
    reasons f (find_field f.name others) ++ each_field reasons fs others

abbrev pub no_reason : List Reason → Bool
no_reason [] = true
no_reason (r ∷ rs) = false

unfoldable pub can_upgrade : FeatureSchema → FeatureSchema → Bool × List Reason
can_upgrade old new =
    let reasons =
      reason_if (leb new.version old.version) version_not_greater
      ++ (each_field removed_reason old.fields new.fields
          ++ (each_field changed_reasons old.fields new.fields
              ++ (each_field shape_reasons old.fields new.fields
                  ++ each_field added_reason new.fields old.fields))) in
    (no_reason reasons, reasons)
