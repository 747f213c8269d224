-- ===== src/Upgrade/Stages.antt =====
-- What holds at the points of an upgrade: before the new segment is made, while no schema points at
-- it, and after the flip.
use quorin.Base.{
  ℕ, ◌<◌, ◌≡◌, ◌≢◌, sym, ◌∙◌, ap, subst, true, false, Option, none, some, Bool-cases, inl, inr,
}
use quorin.Registry.{Name, Redis}
use quorin.Registry.Pointed.{IsPointed}
use quorin.Upgrade.{Stage, Attempt, Progress, going, raised, next, on_registry, Environment, stage}

abbrev pub Unpointed : Name → Redis → Type 0
Unpointed new r = (t : Name) → r.current t ≢ some new

abbrev pub or_else : Name → Option Name → Name
or_else d none = d
or_else d (some n) = n

-- The other processes keep the pointers well-formed, and what a reader of the new segment may do to it: they
-- neither release the last user of it nor change its schema, and point no schema at it if none does.
pub record Polite (env : Environment) (new : Name) : Type 0 where
  pub keeps : (k : Stage) (r : Redis) → IsPointed r → IsPointed (env.others k r)
  pub used : (k : Stage) (r : Redis) → 0 < r.refcount new → 0 < (env.others k r).refcount new
  pub schema_of :
      (k : Stage) (r : Redis) → (env.others k r).segment_to_schema new ≡ r.segment_to_schema new
  pub pointers : (k : Stage) (r : Redis) → Unpointed new r → Unpointed new (env.others k r)

-- No schema points at the name of the new segment.
pub record Fresh (new : Name) (r : Redis) : Type 0 where
  pub inv : IsPointed r
  pub unpointed : Unpointed new r

-- The new segment is there, and no schema points at it.
pub record Made (s new : Name) (r : Redis) : Type 0 where
  pub inv : IsPointed r
  pub used : 0 < r.refcount new
  pub mine : r.segment_to_schema new ≡ some s
  pub unpointed : Unpointed new r

-- What holds wherever the work stops
pub record Sound (new : Name) (a : Attempt) : Type 0 where
  pub inv : IsPointed a.world.registry
  pub orphan :
      a.flip_completed ≡ false → (n : Name) → a.new_seg ≡ some n → Unpointed n a.world.registry

-- A statement about the attempt that goes on, and soundness where one raised
abbrev pub After : Name → (Attempt → Type 0) → Progress → Type 0
After new Q (going a) = Q a
After new Q (raised a e) = Sound new a

pub next-After :
    (new : Name) (Q R : Attempt → Type 0) (p : Progress) (f : Attempt → Progress)
    → After new Q p
    → ((a : Attempt) → Q a → After new R (f a))
    → After new R (next p f)
unfolding next
next-After new Q R (going a) f h k = k a h
next-After new Q R (raised a e) f h k = h

module _ (env : Environment) (s pid new token : ℕ) (polite : Polite env new) where
  abbrev pub StartsFresh : Attempt → Type 0
  StartsFresh a = Fresh new a.world.registry × (a.new_seg ≡ none) × (a.flip_completed ≡ false)

  abbrev pub HasMade : Attempt → Type 0
  HasMade a = Made s new a.world.registry × (a.new_seg ≡ some new) × (a.flip_completed ≡ false)

  abbrev pub IsLive : Attempt → Type 0
  IsLive a = IsPointed a.world.registry × (a.flip_completed ≡ true)

  pub fresh-Sound : (a : Attempt) → StartsFresh a → Sound new a
  fresh-Sound a (f, none_yet, unflipped) = record { inv = f.inv; orphan = λ e n h. cc }

  pub made-Sound : (a : Attempt) → HasMade a → Sound new a
  made-Sound a (m, named, unflipped) = record {
    inv = m.inv;
    orphan = λ e n h.
        let same : new ≡ n = ap (or_else new) (sym named ∙ h) in
        subst (λ k. Unpointed k a.world.registry) same m.unpointed;
  }

  pub live-Sound : (a : Attempt) → IsLive a → Sound new a
  live-Sound a (inv, flipped_e) = record { inv = inv; orphan = λ e n h. cc }

  -- What the others do before a stage
  pub others-StartsFresh :
      (k : Stage) (a : Attempt)
      → StartsFresh a
      → StartsFresh (on_registry a (env.others k a.world.registry))
  others-StartsFresh k a (f, none_yet, unflipped) = (
    record {
      inv = polite.keeps k a.world.registry f.inv;
      unpointed = polite.pointers k a.world.registry f.unpointed;
    },
    none_yet,
    unflipped,
  )

  pub others-HasMade :
      (k : Stage) (a : Attempt)
      → HasMade a
      → HasMade (on_registry a (env.others k a.world.registry))
  others-HasMade k a (m, named, unflipped) = (
    record {
      inv = polite.keeps k a.world.registry m.inv;
      used = polite.used k a.world.registry m.used;
      mine = polite.schema_of k a.world.registry ∙ m.mine;
      unpointed = polite.pointers k a.world.registry m.unpointed;
    },
    named,
    unflipped,
  )

  pub others-IsLive :
      (k : Stage) (a : Attempt) → IsLive a → IsLive (on_registry a (env.others k a.world.registry))
  others-IsLive k a (inv, flipped_e) = (polite.keeps k a.world.registry inv, flipped_e)

  pub stage-After :
      (P Q : Attempt → Type 0) (k : Stage) (body : Attempt → Progress) (a : Attempt)
      → ((b : Attempt) → P b → P (on_registry b (env.others k b.world.registry)))
      → ((b : Attempt) → P b → Sound new b)
      → ((b : Attempt) → P b → After new Q (body b))
      → P a
      → After new Q (stage env s pid new token k body a)
  unfolding stage
  stage-After P Q k body a kept sound run h = elim (Bool-cases (env.fails k)) [
    | inl y ↦ rw y (sound _ (kept a h))
    | inr n ↦ rw n (run _ (kept a h))
  ]
