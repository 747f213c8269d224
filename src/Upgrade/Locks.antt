-- ===== src/Upgrade/Locks.antt =====
-- The upgrade lock.
use quorin.Base.{
  if_both, if_yes, if_no, ℕ, ◌≡◌, refl, sym, ◌∙◌, ap, subst, Option-cases, inl, inr, Bool, true,
  false, not, Option, none, some, ltb, ==_self,
}
use quorin.Registry.{
  Name, Redis, set_at, is_name, Flip, flipped, mismatch, missing, flip_schema_current,
}
use quorin.Registry.Maps.{set_at_back}
use quorin.Upgrade.{
  counting, count_read, count_old, UpgradeError, conflict, World, Stage, pausing, opening,
  rereading, creating, copying, flipping, unpausing, attaching, closing, Attempt, Progress, going,
  raised, next, release_lock, dry_run_result, Environment, stage, set_pause, open_found, open_old,
  reread, create_new, copy_rows, after_flip, flip, clear_pause, close_old, with_old, go_on,
  upgrade_body, drop_orphan, close_left, unlock, unpause, finish_upgrade, begin_attempt, locked,
  acquire, upgrade_schema,
}

module _ (lock : Name → Option ℕ) where
  abbrev Holds : Attempt → Type 0
  Holds a = a.world.lock ≡ lock

  -- Whether the work goes on or raised, the locks are as they were.
  abbrev HoldsAfter : Progress → Type 0
  HoldsAfter (going a) = Holds a
  HoldsAfter (raised a e) = Holds a

  next-HoldsAfter :
      (p : Progress) (f : Attempt → Progress)
      → HoldsAfter p
      → ((a : Attempt) → Holds a → HoldsAfter (f a))
      → HoldsAfter (next p f)
  unfolding next
  next-HoldsAfter (going a) f h k = k a h
  next-HoldsAfter (raised a e) f h k = h

  module _ (env : Environment) (s pid new token : ℕ) where
    stage-HoldsAfter :
        (k : Stage) (body : Attempt → Progress) (a : Attempt)
        → ((b : Attempt) → Holds b → HoldsAfter (body b))
        → Holds a
        → HoldsAfter (stage env s pid new token k body a)
    unfolding stage
    stage-HoldsAfter k body a run h = if_both HoldsAfter (env.fails k) _ _ h (run _ h)

    open_found-HoldsAfter :
        (a : Attempt) (found : Option Name)
        → Holds a
        → HoldsAfter (open_found env s pid new token a found)
    unfolding open_found
    open_found-HoldsAfter a none h = h
    open_found-HoldsAfter a (some old) h = h

    count_read-HoldsAfter :
        (a : Attempt) (found : Option Name)
        → Holds a
        → HoldsAfter (count_read env s pid new token a found)
    unfolding count_read
    count_read-HoldsAfter a none h = h
    count_read-HoldsAfter a (some old) h = h

    after_flip-HoldsAfter :
        (a : Attempt) (p : Redis × Flip) → Holds a → HoldsAfter (after_flip env s pid new token a p)
    unfolding after_flip
    after_flip-HoldsAfter a (r, flipped) h = h
    after_flip-HoldsAfter a (r, mismatch) h = h
    after_flip-HoldsAfter a (r, missing) h = h

    with_old-HoldsAfter :
        (old : Name) (a : Attempt) → Holds a → HoldsAfter (with_old env s pid new token old a)
    unfolding with_old reread create_new copy_rows flip clear_pause close_old
    with_old-HoldsAfter old a h =
        next-HoldsAfter _ _
          (stage-HoldsAfter rereading (reread env s pid new token old) a
            (λ b k. if_both HoldsAfter (is_name (b.world.registry.current s) old) _ _ k k) h)
          (λ a h.
            next-HoldsAfter _ _
              (stage-HoldsAfter creating (create_new env s pid new token) a (λ b k. k) h)
              (λ a h.
                next-HoldsAfter _ _
                  (stage-HoldsAfter copying (copy_rows env s pid new token) a
                    (λ b k. if_both HoldsAfter env.counts_match _ _ k k) h)
                  (λ a h.
                    next-HoldsAfter _ _
                      (stage-HoldsAfter flipping (flip env s pid new token old) a
                        (λ b k.
                          after_flip-HoldsAfter b (flip_schema_current b.world.registry s old new)
                            k)
                        h)
                      (λ a h.
                        next-HoldsAfter _ _
                          (stage-HoldsAfter unpausing (clear_pause env s pid new token) a
                            (λ b k. if_both HoldsAfter env.unpause_works _ _ k k) h)
                          (λ a h.
                            next-HoldsAfter _ _ (stage-HoldsAfter attaching going a (λ b k. k) h)
                              (λ a h.
                                stage-HoldsAfter closing (close_old env s pid new token old) a
                                  (λ b k. k) h))))))

    go_on-HoldsAfter :
        (found : Option Name) (a : Attempt)
        → Holds a
        → HoldsAfter (go_on env s pid new token found a)
    unfolding go_on
    go_on-HoldsAfter none a h = h
    go_on-HoldsAfter (some old) a h = with_old-HoldsAfter old a h

    upgrade_body-HoldsAfter :
        (a : Attempt) → Holds a → HoldsAfter (upgrade_body env s pid new token a)
    unfolding upgrade_body set_pause open_old count_old
    upgrade_body-HoldsAfter a h =
        next-HoldsAfter _ _
          (stage-HoldsAfter pausing (set_pause env s pid new token) a (λ b k. k) h)
          (λ a h.
            next-HoldsAfter _ _
              (stage-HoldsAfter opening (open_old env s pid new token) a
                (λ b k. open_found-HoldsAfter b (b.world.registry.current s) k) h)
              (λ a h.
                next-HoldsAfter _ _
                  (stage-HoldsAfter counting (count_old env s pid new token) a
                    (λ b k. count_read-HoldsAfter b b.read_name k) h)
                  (λ a h. go_on-HoldsAfter a.old_seg a h)))

    drop_orphan_lock :
        (seg : Option Name) (completed : Bool) (a : Attempt)
        → Holds a
        → Holds (drop_orphan env s pid new token seg completed a)
    unfolding drop_orphan
    drop_orphan_lock none completed a h = h
    drop_orphan_lock (some name) true a h = h
    drop_orphan_lock (some name) false a h = if_both Holds env.orphan_cleaned _ _ h h

    close_left_lock :
        (seg : Option Name) (closed : Bool) (a : Attempt)
        → Holds a
        → Holds (close_left env s pid new token seg closed a)
    unfolding close_left
    close_left_lock none closed a h = h
    close_left_lock (some old) true a h = h
    close_left_lock (some old) false a h = if_both Holds env.old_close_works _ _ h h

    -- The `finally` block releases the lock and nothing else.
    unpause_lock : (w : World) → (unpause env s pid new token w).lock ≡ w.lock
    unfolding unpause
    unpause_lock w = if_both (λ (v : World). v.lock ≡ w.lock) env.unpause_works _ _ refl refl

    unlock_congr :
        (v : World)
        → v.lock ≡ lock
        → env.release_works ≡ true
        → lock s ≡ some token
        → (unlock env s pid new token v).lock ≡ set_at lock s none
    unfolding unlock release_lock
    unlock_congr v e works mine =
        let test : is_name (v.lock s) token ≡ true =
          ap (λ (f : Name → Option ℕ). is_name (f s) token) e
          ∙ ap (λ o. is_name o token) mine
          ∙ ==_self token in
        ap (λ (w : World). w.lock) (if_yes env.release_works _ _ works ∙ if_yes _ _ _ test)
        ∙ ap (λ (f : Name → Option ℕ). set_at f s none) e

    finish_upgrade_lock :
        (p : Progress)
        → HoldsAfter p
        → env.release_works ≡ true
        → lock s ≡ some token
        → (finish_upgrade env s pid new token p).0.lock ≡ set_at lock s none
    unfolding finish_upgrade
    finish_upgrade_lock (going a) h works mine =
        unpause_lock _ ∙ unlock_congr _ (close_left_lock a.old_seg a.old_seg_closed a h) works mine
    finish_upgrade_lock (raised a e) h works mine =
        let b = drop_orphan env s pid new token a.new_seg a.flip_completed a in
        unpause_lock _
        ∙ unlock_congr _
            (close_left_lock b.old_seg b.old_seg_closed b
              (drop_orphan_lock a.new_seg a.flip_completed a h))
            works mine

dry_run_lock : (w : World) (s pid : Name) → (dry_run_result w s pid).0.lock ≡ w.lock
unfolding dry_run_result
dry_run_lock w s pid = elim (Option-cases (w.registry.current s)) [
  | inl gone ↦ rw (gone, dry_run_result) refl
  | inr (old, e) ↦ rw (e, dry_run_result) refl
]

module _ (env : Environment) (s pid new token : ℕ) where
  abbrev taken : World → World
  taken w = record w { lock = set_at w.lock s (some token) }

  taken_mine : (w : World) → (taken w).lock s ≡ some token
  taken_mine w = rw (==_self s) refl

  Restored : World → World × Option UpgradeError → Type 0
  Restored w r = r.0.lock ≡ w.lock

  module _ (works : env.release_works ≡ true) where
    unlocked :
        (w : World)
        → w.lock s ≡ none
        → Restored w (unlock env s pid new token (taken w), some conflict)
    unfolding Restored
    unlocked w free =
        unlock_congr (taken w).lock env s pid new token (taken w) refl works (taken_mine w)
        ∙ set_at_back w.lock s (some token) none free

    locked-Restored :
        (w : World)
        → w.lock s ≡ none
        → env.liveness_raises ≡ false
        → Restored w (locked env s pid new token (taken w))
    unfolding locked Restored
    locked-Restored w free alive =
        let start = begin_attempt env s pid new token (taken w) in
        let body = upgrade_body env s pid new token start in
        let done =
          finish_upgrade_lock (taken w).lock env s pid new token body
            (upgrade_body-HoldsAfter (taken w).lock env s pid new token start refl) works
            (taken_mine w)
          ∙ set_at_back w.lock s (some token) none free in
        let stopped = unlocked w free in
        if_both (Restored w) (ltb 0 env.pending) _ _ stopped (
          subst (Restored w) (sym (if_no env.liveness_raises _ _ alive))
            (if_both (Restored w) env.consumer_alive _ _ stopped done))

    acquire-Restored :
        (w : World) (holder : Option ℕ)
        → w.lock s ≡ holder
        → env.liveness_raises ≡ false
        → Restored w (acquire env s pid new token w holder)
    unfolding acquire Restored
    acquire-Restored w (some h) e alive = refl
    acquire-Restored w none e alive = locked-Restored w e alive

    -- If the script that releases the lock goes through, and the read of the consumer's liveness does not
    -- raise: however an upgrade ends, all locks are as they were, also one that another holds.
    pub upgrade_schema_lock :
        (w : World) (dry_run : Bool)
        → env.liveness_raises ≡ false
        → (upgrade_schema env s pid new token w dry_run).0.lock ≡ w.lock
    unfolding upgrade_schema Restored
    upgrade_schema_lock w dry_run alive = if_both (Restored w) (not env.same_name) _ _ refl (
        if_both (Restored w) (not env.factor_ok) _ _ refl (
          if_both (Restored w) (not env.compatible) _ _ refl (
            if_both (Restored w) dry_run _ _ (dry_run_lock w s pid)
              (acquire-Restored w (w.lock s) refl alive))))
