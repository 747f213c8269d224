-- ===== src/Hydration.antt =====
-- quorin/hydration.py: `hydrate`, with `_force_drop_orphan`, on the keys of the registry. The rows of
-- the offline store show as their number.
pub mod Sound
pub mod Failure
mod Tests
use quorin.Base.{List, ℕ, zero, suc, Bool, true, not, Option, none, some, if◌then◌else◌}
use quorin.Registry.{Name, Redis, set_at, srem, create_transaction}

pub data HydrationError : Type 0 where
  bad_factor conflict empty_dataset broken : HydrationError

pub data Hydrated : Type 0 where
  loaded : ℕ → Hydrated
  failed : HydrationError → Hydrated

-- `create` raises and its transaction has not run, or it returns, or it raises although its transaction
-- has run, as where the reply of Redis is lost.
pub data Creation : Type 0 where
  refused created unanswered : Creation

-- What the calls of a hydration come to, and what other processes do between the creation of the segment
-- and the end of the insertion
pub record Setting : Type 0 where
  pub factor_ok : Bool
  pub consumer_alive : Bool
  -- `none` where `latest_features`, or `insert_many`, raises
  pub latest : Option ℕ
  -- What `ensure_started` writes, `none` where the heartbeat runs already or the write fails
  pub beat : Option (List ℕ)
  pub creation : Creation
  pub others : Redis → Redis
  pub inserted : Option ℕ
  pub redis_ok : Bool

-- The heartbeat that the first `create` of a process writes
unfoldable pub ensure_started : Redis → Name → Option (List ℕ) → Redis
ensure_started r pid beat = record r {
  heartbeats = elim beat [
    | none ↦ r.heartbeats
    | some value ↦ set_at r.heartbeats pid (some value)
  ];
}

-- The Redis block of `_force_drop_orphan`
unfoldable pub force_drop_orphan : Redis → Name → Name → Name → Redis
force_drop_orphan r pid s name = record r {
  current = set_at r.current s none;
  refcount = set_at r.refcount name 0;
  pid_segments = set_at r.pid_segments pid (srem name (r.pid_segments pid));
  segment_to_schema = set_at r.segment_to_schema name none;
}

-- The schema, the process, and the name of the new segment
module _ (env : Setting) (s pid new : ℕ) where
  unfoldable pub insert_rows_into : Redis → Option ℕ → Redis × Hydrated
  insert_rows_into r none =
      (if env.redis_ok then force_drop_orphan r pid s new else r, failed broken)
  insert_rows_into r (some n) = (r, loaded n)

  unfoldable pub create_and_insert : Redis → Creation → Redis × Hydrated
  create_and_insert r refused = (r, failed broken)
  create_and_insert r created =
      insert_rows_into (env.others (create_transaction r pid s new true)) env.inserted
  create_and_insert r unanswered = (create_transaction r pid s new true, failed broken)

  unfoldable pub load_latest : Redis → Option ℕ → Redis × Hydrated
  load_latest r none = (r, failed broken)
  load_latest r (some zero) = (r, failed empty_dataset)
  load_latest r (some (suc n)) = create_and_insert (ensure_started r pid env.beat) env.creation

  unfoldable pub check_current : Redis → Option Name → Redis × Hydrated
  check_current r (some name) = (r, failed conflict)
  check_current r none =
      if env.consumer_alive then (r, failed conflict) else load_latest r env.latest

  unfoldable pub hydrate : Redis → Redis × Hydrated
  hydrate r = if not env.factor_ok then (r, failed bad_factor) else check_current r (r.current s)
