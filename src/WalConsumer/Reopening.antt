-- ===== src/WalConsumer/Reopening.antt =====
-- quorin/wal_consumer.py: the end of `_check_upgrade_pause_and_reopen`, where the pause is over, on the
-- keys of the registry. A schema is a number, as its class is; `crc_ok` tells whether the header of a segment
-- fits the class.
pub mod Unheld
use quorin.Base.{ℕ, Bool, true, false, not, Option, none, some, List, [], ◌∷◌, ◌==◌, if◌then◌else◌}
use quorin.Registry.{Name, Redis, set_at, open_transaction, close_script}

-- The consumer with the segments that it has open, and whether it has been told to stop
pub record Attached : Type 0 where
  pub registry : Redis
  pub segments : Name → Name
  pub stopped : Bool

module _ (crc_ok : Name → Bool) (pid : Name) where
  -- The segment is swapped, or the open that was redundant is closed.
  unfoldable pub swap_segment : Attached → Name → Name → Attached
  swap_segment a schema name =
      let opened = open_transaction a.registry pid name in
      if not (name == a.segments schema)
      then record a {
        registry = close_script opened pid (a.segments schema);
        segments = set_at a.segments schema name;
      }
      else record a { registry = close_script opened pid name }

  -- `open_current`, its read of the pointer and its transaction in one step
  unfoldable pub reopen_found : Attached → Name → Option Name → Attached
  reopen_found a schema none = record a { stopped = true }
  reopen_found a schema (some name) =
      if crc_ok name then swap_segment a schema name else record a { stopped = true }

  unfoldable pub reopen : Attached → Name → Attached
  reopen a schema = reopen_found a schema (a.registry.current schema)

  -- The loop over the schemas, which ends at the first that cannot be opened
  unfoldable pub reopen_all : Attached → List Name → Attached
  reopen_all a [] = a
  reopen_all a (schema ∷ schemas) =
      let rest = reopen_all (reopen a schema) schemas in
      if (reopen a schema).stopped then reopen a schema else rest
