-- ===== src/GcManager/Tests.antt =====
-- A manager at the start of a process, and one with a timer.
use quorin.Base.{◌≡◌, ◌≢◌, refl, arith, true, false, none, some, [], ◌∷◌, contains}
use quorin.GcManager.{Manager, start_collector, stop_collector, thread_exit, remove}
use quorin.GcManager.Invariant.{IsManager}
use quorin.GcManager.Steps
use quorin.GcManager.Steps.{Run, Run-IsManager}
use quorin.GcManager.Parallel.{start_orphans}

abbrev at_import : Manager
at_import = record {
  callbacks = 5 ∷ [];
  thread = none;
  stop_event = none;
  zombies = [];
  pause_starts = λ gen. none;
  observers = [];
  observed = [];
  alive = [];
  stopping = [];
  spawned = 0;
}

at_import-IsManager : IsManager at_import
unfolding remove
at_import-IsManager = record {
  once = refl;
  event = refl;
  installed = λ t h. cc;
  numbered = λ t h. cc;
  told = λ t h. cc;
  zombies_told = λ t h. cc;
}

abbrev timed : Manager
timed = start_collector at_import true (some 500)

abbrev stopped : Manager
stopped = stop_collector timed false

Run-IsManager_example : IsManager (thread_exit stopped 0)
Run-IsManager_example = Run-IsManager at_import-IsManager (
    Steps.then_step
      (Steps.then_step (Steps.then_step Steps.here (Steps.starts (some 500))) (Steps.stops false))
      (Steps.exits 0))

-- A timer that was started without the callback
abbrev quiet : Manager
quiet = record at_import { thread = some 0; stop_event = some 0; alive = 0 ∷ []; spawned = 1 }

start_orphans_example :
    (contains 0 (start_collector quiet true (some 500)).alive ≡ true)
    × (contains 1 (start_collector quiet true (some 500)).alive ≡ true)
    × (contains 0 (stop_collector (start_collector quiet true (some 500)) true).alive ≡ true)
    × (contains 0 (stop_collector (start_collector quiet true (some 500)) true).stopping ≡ false)
    × ((stop_collector (start_collector quiet true (some 500)) true).thread ≡ none)
    × (quiet.spawned ≢ 0)
start_orphans_example = start_orphans quiet 0 (omega arith) refl refl 500 true refl refl
