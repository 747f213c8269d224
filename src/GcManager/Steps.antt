-- ===== src/GcManager/Steps.antt =====
-- Calls of the manager, ends of threads and forks, in any order.
use quorin.Base.{ℕ, Bool, true, Option}
use quorin.GcManager.{
  Manager, Phase, start_collector, stop_collector, thread_exit, on_collection, reset_after_fork,
}
use quorin.GcManager.Invariant.{
  IsManager, start_collector-IsManager, stop_collector-IsManager, thread_exit-IsManager,
  on_collection-IsManager, reset_after_fork-IsManager,
}

-- A call of the manager with the callback, a collection, the end of a thread that was told to
-- stop, or a fork, after which the state is the child's
pub data Step (g : Manager) : Manager → Type 0 where
  starts : (interval : Option ℕ) → Step g (start_collector g true interval)
  stops : (ended : Bool) → Step g (stop_collector g ended)
  exits : (t : ℕ) → Step g (thread_exit g t)
  collects : (phase : Phase) (gen : Option ℕ) (now : ℕ) → Step g (on_collection g phase gen now)
  forks : Step g (reset_after_fork g)

pub data Run (g : Manager) : Manager → Type 0 where
  here : Run g g
  then_step : {h k : Manager} → Run g h → Step h k → Run g k

Step-IsManager : {g h : Manager} → IsManager g → Step g h → IsManager h
Step-IsManager {g} inv (starts interval) = start_collector-IsManager g interval inv
Step-IsManager {g} inv (stops ended) = stop_collector-IsManager g ended inv
Step-IsManager {g} inv (exits t) = thread_exit-IsManager g t inv
Step-IsManager {g} inv (collects phase gen now) = on_collection-IsManager g phase gen now inv
Step-IsManager {g} inv forks = reset_after_fork-IsManager g inv

-- However starts with the callback, stops, collections, ends of threads and forks follow one another, the callback is registered
-- once at most, a thread at hand has the callback and its own event with it, and every collector thread that still
-- runs is the one at hand or has had its event set.
pub Run-IsManager : {g h : Manager} → IsManager g → Run g h → IsManager h
Run-IsManager inv here = inv
Run-IsManager inv (then_step run step) = Step-IsManager (Run-IsManager inv run) step
