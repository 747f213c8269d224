-- ===== src/GcManager.antt =====
-- quorin/_internal/gc_manager.py: the callback on collections, and the thread that collects
-- generation 2 on a timer. A thread is a number, and its stop event goes by the same number; the
-- threads that run and the events that are set are the state of the operating system.
pub mod Invariant
pub mod Steps
pub mod Parallel
mod Tests
use quorin.Base.{
  ℕ, zero, suc, ◌-◌, Bool, true, false, not, ◌&&◌, ◌||◌, Option, none, some, List, [], ◌∷◌, ◌++◌,
  ◌==◌, contains, if◌then◌else◌,
}

-- `_gc_callback`, among the callbacks of others
abbrev pub gc_callback : ℕ
gc_callback = 0

pub record Manager : Type 0 where
  -- `gc.callbacks`
  pub callbacks : List ℕ
  -- `_state.thread`, `_state.stop_event`, `_zombies`
  pub thread : Option ℕ
  pub stop_event : Option ℕ
  pub zombies : List ℕ
  -- The list `_pause_starts`, the labels of `_observers`, and what the histogram has observed
  pub pause_starts : ℕ → Option ℕ
  pub observers : List ℕ
  pub observed : List (ℕ × ℕ)
  -- The collector threads that run, the events that are set, and the number of threads started
  pub alive : List ℕ
  pub stopping : List ℕ
  pub spawned : ℕ

-- `list.remove`: the first occurrence
unfoldable pub remove : ℕ → List ℕ → List ℕ
remove n [] = []
remove n (m ∷ ms) = if n == m then ms else m ∷ remove n ms

abbrev pub is_none {ℓ} : {A : Type ℓ} → Option A → Bool
is_none none = true
is_none (some a) = false

-- `_state.thread is not None and _state.thread.is_alive()`
unfoldable pub is_running : Option ℕ → List ℕ → Bool
is_running none alive = false
is_running (some t) alive = contains t alive

unfoldable pub is_timer_running : Manager → Bool
unfolding is_running
is_timer_running g = is_running g.thread g.alive

-- `if not _observers: ...`
unfoldable pub warm : List ℕ → List ℕ
warm [] = 0 ∷ 1 ∷ 2 ∷ []
warm (o ∷ os) = o ∷ os

-- The part of `start_collector` under `if install_callback`
unfoldable pub install : Manager → Manager
unfolding warm
install g = record g {
  observers = warm g.observers;
  callbacks = if contains gc_callback g.callbacks then g.callbacks else gc_callback ∷ g.callbacks;
}

-- The part behind it, which starts the thread
unfoldable pub start_timer : Manager → Option ℕ → Manager
start_timer g none = g
start_timer g (some interval) = record g {
  thread = some g.spawned;
  stop_event = some g.spawned;
  alive = g.spawned ∷ g.alive;
  spawned = suc g.spawned;
}

unfoldable pub start_collector : Manager → Bool → Option ℕ → Manager
unfolding is_timer_running install
start_collector g install_callback gen2_interval =
    let callback_done = not install_callback || contains gc_callback g.callbacks in
    let timer_done = is_none gen2_interval || is_timer_running g in
    if callback_done && timer_done
    then g
    else start_timer (if install_callback then install g else g) gen2_interval

-- `stop_event.set()`
unfoldable pub set_event : Option ℕ → List ℕ → List ℕ
set_event none stopping = stopping
set_event (some e) stopping = e ∷ stopping

-- `thread.join(timeout)`: whether the thread had ended in time; one that had not becomes a zombie.
unfoldable pub join_thread : Manager → Option ℕ → Bool → Manager
join_thread g none ended = g
join_thread g (some t) ended =
    if ended
    then record g { alive = remove t g.alive }
    else if contains t g.alive
    then record g { zombies = g.zombies ++ (t ∷ []) }
    else g

-- The part of `stop_collector` under the lock, and the event that is set behind it
unfoldable pub release : Manager → Manager
unfolding set_event
release g = record g {
  callbacks = remove gc_callback g.callbacks;
  thread = none;
  stop_event = none;
  stopping = set_event g.stop_event g.stopping;
}

-- Its `finally`
unfoldable pub clear_pauses : Manager → Manager
clear_pauses g = record g { pause_starts = λ gen. none; observers = [] }

unfoldable pub stop_collector : Manager → Bool → Manager
unfolding release join_thread clear_pauses
stop_collector g ended =
    if not (contains gc_callback g.callbacks) && is_none g.thread
    then g
    else clear_pauses (join_thread (release g) g.thread ended)

-- `_collector_loop` of a thread ends once its event is set.
unfoldable pub thread_exit : Manager → ℕ → Manager
thread_exit g t = if contains t g.stopping then record g { alive = remove t g.alive } else g

pub data Phase : Type 0 where
  begin finish : Phase

abbrev set_start : (ℕ → Option ℕ) → ℕ → Option ℕ → ℕ → Option ℕ
set_start starts gen at i = if i == gen then at else starts i

-- The end of a pause that began at a time that is known, or not
unfoldable pub observe_pause : Manager → ℕ → Option ℕ → ℕ → Manager
observe_pause g gen none now = g
observe_pause g gen (some t0) now = record g {
  pause_starts = set_start g.pause_starts gen none;
  observed = if contains gen g.observers then (gen, now - t0) ∷ g.observed else g.observed;
}

-- `_gc_callback` for a phase, a generation and the clock
unfoldable pub on_collection : Manager → Phase → Option ℕ → ℕ → Manager
unfolding observe_pause
on_collection g phase none now = g
on_collection g begin (some gen) now = record g {
  pause_starts = set_start g.pause_starts gen (some now);
}
on_collection g finish (some gen) now = observe_pause g gen (g.pause_starts gen) now

-- `_reset_after_fork`, in a child, in which the threads of its parent do not run
unfoldable pub reset_after_fork : Manager → Manager
reset_after_fork g = record g {
  alive = [];
  thread = none;
  stop_event = none;
  zombies = [];
  pause_starts = λ gen. none;
  observers = [];
  callbacks = remove gc_callback g.callbacks;
}
