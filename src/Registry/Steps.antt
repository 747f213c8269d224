-- ===== src/Registry/Steps.antt =====
-- The steps of the processes on the registry, in any order.
use quorin.Base.{ℕ, ◌<◌, ◌≡◌, ◌≢◌, Bool, true, some, List, ◌∷◌, contains}
use quorin.Registry.{
  Name, Redis, create_transaction, open_transaction, close_script, cleanup_dead_pid,
  drain_cleanup_queue, flip_schema_current,
}
use quorin.Registry.Pointed.{
  IsPointed, create_transaction-IsPointed, open_transaction-IsPointed, close_script-IsPointed,
  cleanup_dead_pid-IsPointed, drain_cleanup_queue-IsPointed, flip_schema_current-IsPointed,
}

-- The registry, with the names that calls of `open_current` have read, and not acted upon yet
pub record Shared : Type 0 where
  pub registry : Redis
  pub reads : List Name

-- One step. No schema points at a created name, which is new; an `open_current` reads a pointer, and later
-- counts the name that it read; a flip is to a segment of the schema that is in use, as the one that the
-- upgrade has just created.
pub data Step (w : Shared) : Shared → Type 0 where
  create :
      (pid schema name : Name) (set_current : Bool)
      → ((t : Name) → w.registry.current t ≢ some name)
      → Step w (record w { registry = create_transaction w.registry pid schema name set_current })
  read_current :
      (schema name : Name)
      → w.registry.current schema ≡ some name
      → Step w (record w { reads = name ∷ w.reads })
  open_read :
      (pid name : Name)
      → contains name w.reads ≡ true
      → Step w (record w { registry = open_transaction w.registry pid name })
  close : (pid name : Name) → Step w (record w { registry = close_script w.registry pid name })
  clean_up :
      (pid : Name) (created : List ℕ)
      → Step w (record w { registry = (cleanup_dead_pid w.registry pid created).0 })
  drain : (max : ℕ) → Step w (record w { registry = (drain_cleanup_queue w.registry max).0 })
  flip :
      (schema old_name new_name : Name)
      → w.registry.segment_to_schema new_name ≡ some schema
      → 0 < w.registry.refcount new_name
      → Step w (record w { registry = (flip_schema_current w.registry schema old_name new_name).0 })

pub data Run (w : Shared) : Shared → Type 0 where
  start : Run w w
  then_step : {v u : Shared} → Run w v → Step v u → Run w u

Step-IsPointed : {w v : Shared} → IsPointed w.registry → Step w v → IsPointed v.registry
Step-IsPointed {w} inv (create pid schema name set_current new) =
    create_transaction-IsPointed w.registry inv pid schema name set_current new
Step-IsPointed {w} inv (read_current schema name h) = inv
Step-IsPointed {w} inv (open_read pid name h) = open_transaction-IsPointed w.registry inv pid name
Step-IsPointed {w} inv (close pid name) = close_script-IsPointed w.registry inv pid name
Step-IsPointed {w} inv (clean_up pid created) =
    cleanup_dead_pid-IsPointed w.registry inv pid created
Step-IsPointed {w} inv (drain max) = drain_cleanup_queue-IsPointed w.registry inv max
Step-IsPointed {w} inv (flip schema old_name new_name mine used) =
    flip_schema_current-IsPointed w.registry inv schema old_name new_name mine used

-- However the processes interleave their steps, also between the read of a pointer and the transaction of
-- an `open_current`, so long as no schema points at the name of a segment that is created, and a flip
-- is to a segment in use of its schema: every schema points at a segment whose counter is not 0 and
-- that is registered for it, if this holds at the start.
pub Run-IsPointed : {w v : Shared} → IsPointed w.registry → Run w v → IsPointed v.registry
Run-IsPointed inv start = inv
Run-IsPointed inv (then_step run step) = Step-IsPointed (Run-IsPointed inv run) step
