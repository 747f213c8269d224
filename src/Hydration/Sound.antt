-- ===== src/Hydration/Sound.antt =====
-- The registry over a hydration, however it ends and whatever other processes do meanwhile.
use quorin.Base.{ℕ, ◌≡◌}
use quorin.Registry.{Redis}
use quorin.Registry.Invariant.{IsRegistry}
use quorin.Hydration.{Hydrated, Setting}

module _ (env : Setting) (s pid new : ℕ) where
  abbrev Kept : Redis × Hydrated → Type 0
  Kept r = IsRegistry r.0

  -- What the others do keeps the registry well-formed, and the schema of the new segment.
  pub record Polite : Type 0 where
    pub keeps : (r : Redis) → IsRegistry r → IsRegistry (env.others r)
    pub schema_of : (r : Redis) → (env.others r).segment_to_schema new ≡ r.segment_to_schema new
