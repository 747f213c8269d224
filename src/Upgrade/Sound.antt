-- ===== src/Upgrade/Sound.antt =====
-- The registry over an upgrade, however it ends and whatever other processes do meanwhile.
use quorin.Base.{
  if_both, ℕ, ◌≡◌, refl, sym, subst, arith, Bool, true, false, not, Option, none, some, Bool-cases,
  Option-cases, inl, inr, ltb,
}
use quorin.Registry.{Name, Redis, open_transaction}
use quorin.Registry.Pointed.{IsPointed, open_transaction-IsPointed, close_script-IsPointed}
use quorin.Upgrade.{
  UpgradeError, World, Attempt, Progress, going, raised, cleanup_orphan, release_lock,
  dry_run_result, Environment, upgrade_body, drop_orphan, close_left, unlock, unpause,
  finish_upgrade, begin_attempt, locked, acquire, upgrade_schema,
}
use quorin.Upgrade.Stages.{Unpointed, Polite, Fresh, Sound, After}
use quorin.Upgrade.Body.{upgrade_body-After}

abbrev Kept : World × Option UpgradeError → Type 0
Kept r = IsPointed r.0.registry

cleanup_orphan-IsPointed :
    (r : Redis) (pid name : Name)
    → IsPointed r
    → Unpointed name r
    → IsPointed (cleanup_orphan r pid name)
unfolding cleanup_orphan
cleanup_orphan-IsPointed r pid name inv apart = record {
  registered = λ t n h. let old = inv.registered t n h in let ne = apart t in ground arith;
  in_use = λ t n h. let old = inv.in_use t n h in let ne = apart t in ground arith;
}

module _ (env : Environment) (s pid new token : ℕ) (polite : Polite env new) where
  drop_orphan-IsPointed :
      (seg : Option Name) (completed : Bool) (a : Attempt)
      → IsPointed a.world.registry
      → (completed ≡ false → (n : Name) → seg ≡ some n → Unpointed n a.world.registry)
      → IsPointed (drop_orphan env s pid new token seg completed a).world.registry
  unfolding drop_orphan
  drop_orphan-IsPointed none completed a inv apart = inv
  drop_orphan-IsPointed (some name) true a inv apart = inv
  drop_orphan-IsPointed (some name) false a inv apart = elim (Bool-cases env.orphan_cleaned) [
    | inl y ↦ rw y (cleanup_orphan-IsPointed a.world.registry pid name inv (apart refl name refl))
    | inr n ↦ rw n inv
  ]

  close_left-IsPointed :
      (seg : Option Name) (closed : Bool) (a : Attempt)
      → IsPointed a.world.registry
      → IsPointed (close_left env s pid new token seg closed a).world.registry
  unfolding close_left
  close_left-IsPointed none closed a inv = inv
  close_left-IsPointed (some old) true a inv = inv
  close_left-IsPointed (some old) false a inv = elim (Bool-cases env.old_close_works) [
    | inl y ↦ rw y (close_script-IsPointed a.world.registry inv pid old)
    | inr n ↦ rw n inv
  ]

  -- Neither the lock nor the pause is part of the registry.
  unlocked_registry :
      (w : World)
      → (unpause env s pid new token (unlock env s pid new token w)).registry ≡ w.registry
  unfolding unpause unlock release_lock
  unlocked_registry w = ground arith

  unlock_registry : (w : World) → (unlock env s pid new token w).registry ≡ w.registry
  unfolding unlock release_lock
  unlock_registry w = ground arith

  finish_upgrade-IsPointed :
      (p : Progress)
      → After new (Sound new) p
      → IsPointed (finish_upgrade env s pid new token p).0.registry
  unfolding finish_upgrade
  finish_upgrade-IsPointed (going a) h =
      subst IsPointed (sym (unlocked_registry _))
        (close_left-IsPointed a.old_seg a.old_seg_closed a h.inv)
  finish_upgrade-IsPointed (raised a e) h =
      let b = drop_orphan env s pid new token a.new_seg a.flip_completed a in
      subst IsPointed (sym (unlocked_registry _)) (
        close_left-IsPointed b.old_seg b.old_seg_closed b
          (drop_orphan-IsPointed a.new_seg a.flip_completed a h.inv h.orphan))

  locked-IsPointed :
      (w : World) → Fresh new w.registry → IsPointed (locked env s pid new token w).0.registry
  unfolding locked
  locked-IsPointed w f =
      let stopped = subst IsPointed (sym (unlock_registry w)) f.inv in
      let start = begin_attempt env s pid new token w in
      if_both Kept (ltb 0 env.pending) _ _ stopped (
        if_both Kept env.liveness_raises _ _ f.inv (
          if_both Kept env.consumer_alive _ _ stopped (
            finish_upgrade-IsPointed (upgrade_body env s pid new token start)
              (upgrade_body-After env s pid new token polite start (f, refl, refl)))))

  acquire-IsPointed :
      (w : World) (holder : Option ℕ)
      → Fresh new w.registry
      → IsPointed (acquire env s pid new token w holder).0.registry
  unfolding acquire
  acquire-IsPointed w (some h) f = f.inv
  acquire-IsPointed w none f = locked-IsPointed _ f

  dry_run_result-IsPointed :
      (w : World) → IsPointed w.registry → IsPointed (dry_run_result w s pid).0.registry
  unfolding dry_run_result
  dry_run_result-IsPointed w inv = elim (Option-cases (w.registry.current s)) [
    | inl gone ↦ rw (gone, dry_run_result) inv
    | inr (old, e) ↦
        rw (e, dry_run_result)
          (close_script-IsPointed (open_transaction w.registry pid old)
            (open_transaction-IsPointed w.registry inv pid old) pid old)
  ]

  -- If every schema points at a segment whose counter is not 0 and that is registered for it, and none at
  -- the name of the new segment: whatever stage of an upgrade raises before it acts, whichever of the
  -- suppressed calls fail, and whatever other processes do before each stage, also between the read of
  -- the pointer and the count of the old segment, so long as they keep the former, leave the new
  -- segment its schema and its last user, and point no schema at it if none does: after the upgrade,
  -- or the dry run, every schema still points at a segment whose counter is not 0 and that is
  -- registered for it.
  pub upgrade_schema-IsPointed :
      (w : World) (dry_run : Bool)
      → Fresh new w.registry
      → IsPointed (upgrade_schema env s pid new token w dry_run).0.registry
  unfolding upgrade_schema
  upgrade_schema-IsPointed w dry_run f = if_both Kept (not env.same_name) _ _ f.inv (
      if_both Kept (not env.factor_ok) _ _ f.inv (
        if_both Kept (not env.compatible) _ _ f.inv (
          if_both Kept dry_run _ _ (dry_run_result-IsPointed w f.inv)
            (acquire-IsPointed w (w.lock s) f))))
