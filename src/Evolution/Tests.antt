-- ===== src/Evolution/Tests.antt =====
-- An upgrade that widens one field and adds another.
use quorin.Base.{◌↔◌, ◌≡◌, refl, true, false, [], ◌∷◌}
use quorin.Schema.{float32, float64, int32, FeatureSchema}
use quorin.Evolution.{
  widens, find_field, removed_reason, changed_reasons, shape_reasons, added_reason, each_field,
  can_upgrade,
}
use quorin.Evolution.Rules.{IsUpgrade}
use quorin.Evolution.Complete.{can_upgrade_lem}

abbrev first_version : FeatureSchema
first_version = record {
  name = b'U' ∷ [];
  version = 1;
  fields = record { name = b'a' ∷ []; dtype = float32; shape = 4 ∷ [] } ∷ [];
}

abbrev second_version : FeatureSchema
second_version = record {
  name = b'U' ∷ [];
  version = 2;
  fields =
      record { name = b'b' ∷ []; dtype = int32; shape = [] }
      ∷ record { name = b'a' ∷ []; dtype = float64; shape = 4 ∷ [] }
      ∷ [];
}

accepted : (can_upgrade first_version second_version).0 ≡ true
unfolding can_upgrade each_field find_field removed_reason changed_reasons shape_reasons
    added_reason widens
accepted = refl

refused : (can_upgrade second_version first_version).0 ≡ false
unfolding can_upgrade each_field find_field removed_reason changed_reasons shape_reasons
    added_reason widens
refused = refl

can_upgrade_lem_example :
    ((can_upgrade first_version second_version).0 ≡ true) ↔ IsUpgrade first_version second_version
can_upgrade_lem_example = can_upgrade_lem first_version second_version
