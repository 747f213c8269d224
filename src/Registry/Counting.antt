-- ===== src/Registry/Counting.antt =====
-- Processes that open a segment at most once at a time.
use quorin.Base.{contains, is_set, ℕ, ◌≡◌, Bool, true, false, List}
use quorin.Registry.{
  Name, Redis, create_transaction, open_transaction, close_script, cleanup_dead_pid,
}
use quorin.Registry.Holders.{
  IsCounted, create_transaction-IsCounted, open_transaction-IsCounted, close_script-IsCounted,
  cleanup_dead_pid-IsCounted,
}

-- A transaction of one of the processes `ps`, which opens only what it does not hold, and closes
-- only what it holds.
pub data OnceStep (ps : List Name) (r : Redis) : Redis → Type 0 where
  create :
      (pid schema name : Name) (set_current : Bool)
      → contains pid ps ≡ true
      → r.refcount name ≡ 0
      → OnceStep ps r (create_transaction r pid schema name set_current)
  open_current :
      (pid name : Name)
      → contains pid ps ≡ true
      → contains name (r.pid_segments pid) ≡ false
      → OnceStep ps r (open_transaction r pid name)
  close :
      (pid name : Name)
      → contains pid ps ≡ true
      → contains name (r.pid_segments pid) ≡ true
      → OnceStep ps r (close_script r pid name)
  clean_up :
      (pid : Name) (created : List ℕ)
      → contains pid ps ≡ true
      → OnceStep ps r (cleanup_dead_pid r pid created).0

pub data OnceRun (ps : List Name) (r : Redis) : Redis → Type 0 where
  start : OnceRun ps r r
  then_step : {s t : Redis} → OnceRun ps r s → OnceStep ps s t → OnceRun ps r t

OnceStep-IsCounted :
    (ps : List Name)
    → is_set ps ≡ true
    → {r s : Redis} → IsCounted ps r
    → OnceStep ps r s
    → IsCounted ps s
OnceStep-IsCounted ps distinct {r} inv (create pid schema name set_current known new) =
    create_transaction-IsCounted ps distinct r inv pid schema name set_current known new
OnceStep-IsCounted ps distinct {r} inv (open_current pid name known free) =
    open_transaction-IsCounted ps distinct r inv pid name known free
OnceStep-IsCounted ps distinct {r} inv (close pid name known mine) =
    close_script-IsCounted ps distinct r inv pid name known mine
OnceStep-IsCounted ps distinct {r} inv (clean_up pid created known) =
    cleanup_dead_pid-IsCounted ps distinct r inv pid created known

-- Among processes that hold a segment at most once each, in any interleaving of creations, openings,
-- closings and clean-ups of dead processes, the counter of every segment is the number of processes
-- that hold it.
pub OnceRun-IsCounted :
    (ps : List Name)
    → is_set ps ≡ true
    → {r s : Redis} → IsCounted ps r
    → OnceRun ps r s
    → IsCounted ps s
OnceRun-IsCounted ps distinct inv start = inv
OnceRun-IsCounted ps distinct inv (then_step run step) =
    OnceStep-IsCounted ps distinct (OnceRun-IsCounted ps distinct inv run) step
