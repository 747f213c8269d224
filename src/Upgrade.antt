-- ===== src/Upgrade.antt =====
-- quorin/evolution.py: `upgrade_schema`, with `_cleanup_orphan_new_segment` and `_dry_run_result`, on
-- the keys of the registry and the keys of the upgrade lock and the pause. A token is a number. The
-- copy of the rows shows as whether it raises, and whether its count is right.
pub mod Stages
pub mod Body
pub mod Sound
pub mod Locks
mod Tests
use quorin.Base.{
  ℕ, ◌≡◌, Bool, true, false, not, ◌&&◌, ◌||◌, Option, none, some, ltb, ◌==◌, if◌then◌else◌,
}
use quorin.Registry.{
  Name, Redis, set_at, srem, is_name, create_transaction, open_transaction, close_script, Flip,
  flipped, mismatch, missing, flip_schema_current,
}

pub data UpgradeError : Type 0 where
  incompatible bad_factor conflict aborted not_found wrong_count broken : UpgradeError

pub record World : Type 0 where
  pub registry : Redis
  -- `quorin:upgrade:lock:{name}` and `quorin:upgrade:pause:{name}`, which do not expire here
  pub lock : Name → Option ℕ
  pub pause : Name → Option ℕ

-- The points at which a call can raise, and before which other processes run
pub data Stage : Type 0 where
  pausing opening counting rereading creating copying flipping unpausing attaching closing : Stage

-- The variables of `upgrade_schema`
pub record Attempt : Type 0 where
  pub world : World
  -- `name` in `open_current`
  pub read_name : Option Name
  pub old_seg : Option Name
  pub new_seg : Option Name
  pub old_seg_closed : Bool
  pub flip_completed : Bool

pub data Progress : Type 0 where
  going : Attempt → Progress
  raised : Attempt → UpgradeError → Progress

-- The next statement, unless one before it raised
unfoldable pub next : Progress → (Attempt → Progress) → Progress
next (going a) f = f a
next (raised a e) f = raised a e

abbrev pub on_registry : Attempt → Redis → Attempt
on_registry a r = record a { world = record a.world { registry = r } }

-- The Redis block of `_cleanup_orphan_new_segment`
unfoldable pub cleanup_orphan : Redis → Name → Name → Redis
cleanup_orphan r pid name = record r {
  refcount = set_at r.refcount name 0;
  pid_segments = set_at r.pid_segments pid (srem name (r.pid_segments pid));
  segment_to_schema = set_at r.segment_to_schema name none;
}

-- `RELEASE_LOCK_LUA`
unfoldable pub release_lock : World → Name → ℕ → World
release_lock w s token =
    if is_name (w.lock s) token then record w { lock = set_at w.lock s none } else w

-- `_dry_run_result`
unfoldable pub dry_run_result : World → Name → Name → World × Option UpgradeError
dry_run_result w s pid = elim (w.registry.current s) [
  | none ↦ (w, some not_found)
  | some name ↦
      (record w { registry = close_script (open_transaction w.registry pid name) pid name }, none)
]

-- What happens around the upgrade: what other processes do before a stage, which stages raise,
-- whether the count of `insert_many` is right, whether a suppressed call goes through, and the
-- state that the checks before the work find.
pub record Environment : Type 0 where
  pub others : Stage → Redis → Redis
  pub fails : Stage → Bool
  pub counts_match : Bool
  pub orphan_cleaned : Bool
  pub old_close_works : Bool
  pub release_works : Bool
  pub unpause_works : Bool
  pub same_name : Bool
  pub factor_ok : Bool
  pub compatible : Bool
  pub pending : ℕ
  pub liveness_raises : Bool
  pub consumer_alive : Bool

-- The schema, the process, the name of the new segment and the token of the lock
module _ (env : Environment) (s pid new token : ℕ) where
  unfoldable pub stage : Stage → (Attempt → Progress) → Attempt → Progress
  stage k body a =
      let before = on_registry a (env.others k a.world.registry) in
      if env.fails k then raised before broken else body before

  -- 2.
  unfoldable pub set_pause : Attempt → Progress
  set_pause a =
      going (record a { world = record a.world { pause = set_at a.world.pause s (some token) } })

  -- 3. `open_current`: the read of the pointer, and the transaction on what was read
  unfoldable pub open_found : Attempt → Option Name → Progress
  open_found a none = raised a not_found
  open_found a (some old) = going (record a { read_name = some old })

  unfoldable pub open_old : Attempt → Progress
  open_old a = open_found a (a.world.registry.current s)

  unfoldable pub count_read : Attempt → Option Name → Progress
  count_read a none = going a
  count_read a (some old) =
      going
        (record (on_registry a (open_transaction a.world.registry pid old)) { old_seg = some old })

  unfoldable pub count_old : Attempt → Progress
  count_old a = count_read a a.read_name

  unfoldable pub reread : Name → Attempt → Progress
  reread old a = if is_name (a.world.registry.current s) old then going a else raised a conflict

  -- 5.
  unfoldable pub create_new : Attempt → Progress
  create_new a =
      going (record (on_registry a (create_transaction a.world.registry pid s new false)) {
        new_seg = some new;
      })

  -- 6.
  unfoldable pub copy_rows : Attempt → Progress
  copy_rows a = if env.counts_match then going a else raised a wrong_count

  -- 7.
  unfoldable pub after_flip : Attempt → Redis × Flip → Progress
  after_flip a (r, flipped) = going (record (on_registry a r) { flip_completed = true })
  after_flip a (r, mismatch) = raised a aborted
  after_flip a (r, missing) = raised a conflict

  unfoldable pub flip : Name → Attempt → Progress
  flip old a = after_flip a (flip_schema_current a.world.registry s old new)

  -- 8. Exceptions are suppressed.
  unfoldable pub clear_pause : Attempt → Progress
  clear_pause a =
      if env.unpause_works
      then going (record a { world = record a.world { pause = set_at a.world.pause s none } })
      else going a

  -- 10.
  unfoldable pub close_old : Name → Attempt → Progress
  close_old old a =
      going
        (record (on_registry a (close_script a.world.registry pid old)) { old_seg_closed = true })

  -- Steps 3 to 10, once the old segment is open. Step 9 waits and changes nothing.
  unfoldable pub with_old : Name → Attempt → Progress
  unfolding stage next
  with_old old a = next (stage rereading (reread old) a) (λ a.
      next (stage creating create_new a) (λ a. next (stage copying copy_rows a) (λ a.
        next (stage flipping (flip old) a) (λ a.
          next (stage unpausing clear_pause a)
            (λ a. next (stage attaching going a) (stage closing (close_old old)))))))

  unfoldable pub go_on : Option Name → Attempt → Progress
  go_on none a = going a
  go_on (some old) a = with_old old a

  -- The `try` block
  unfoldable pub upgrade_body : Attempt → Progress
  upgrade_body a = next (stage pausing set_pause a) (λ a.
      next (stage opening open_old a)
        (λ a. next (stage counting count_old a) (λ a. go_on a.old_seg a)))

  -- The two `except` blocks
  unfoldable pub drop_orphan : Option Name → Bool → Attempt → Attempt
  drop_orphan none flip_completed a = a
  drop_orphan (some name) true a = a
  drop_orphan (some name) false a =
      if env.orphan_cleaned then on_registry a (cleanup_orphan a.world.registry pid name) else a

  -- The `finally` block
  unfoldable pub close_left : Option Name → Bool → Attempt → Attempt
  close_left none closed a = a
  close_left (some old) true a = a
  close_left (some old) false a =
      if env.old_close_works then on_registry a (close_script a.world.registry pid old) else a

  unfoldable pub unlock : World → World
  unlock w = if env.release_works then release_lock w s token else w

  unfoldable pub unpause : World → World
  unpause w = if env.unpause_works then record w { pause = set_at w.pause s none } else w

  unfoldable pub finish_upgrade : Progress → World × Option UpgradeError
  finish_upgrade (going a) =
      (unpause (unlock (close_left a.old_seg a.old_seg_closed a).world), none)
  finish_upgrade (raised a e) =
      let b = drop_orphan a.new_seg a.flip_completed a in
      (unpause (unlock (close_left b.old_seg b.old_seg_closed b).world), some e)

  abbrev pub begin_attempt : World → Attempt
  begin_attempt w = record {
    world = w;
    read_name = none;
    old_seg = none;
    new_seg = none;
    old_seg_closed = false;
    flip_completed = false;
  }

  -- Step 1b and the rest, with the lock taken
  unfoldable pub locked : World → World × Option UpgradeError
  locked w =
      if ltb 0 env.pending
      then (unlock w, some conflict)
      else if env.liveness_raises
      then (w, some broken)
      else if env.consumer_alive
      then (unlock w, some conflict)
      else finish_upgrade (upgrade_body (begin_attempt w))

  -- `SET lock_key NX`
  unfoldable pub acquire : World → Option ℕ → World × Option UpgradeError
  acquire w (some holder) = (w, some conflict)
  acquire w none = locked (record w { lock = set_at w.lock s (some token) })

  unfoldable pub upgrade_schema : World → Bool → World × Option UpgradeError
  upgrade_schema w dry_run =
      if not env.same_name
      then (w, some incompatible)
      else if not env.factor_ok
      then (w, some bad_factor)
      else if not env.compatible
      then (w, some incompatible)
      else if dry_run
      then dry_run_result w s pid
      else acquire w (w.lock s)
