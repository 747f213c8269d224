-- ===== src/Watchdog.antt =====
-- quorin/watchdog.py: `WatchdogState.run_one_tick`. The builtins `int` and `str`, psutil and
-- `posix_shm.unlink` are parameters; the metrics and the log are left out.
pub mod Reaping
pub mod Safety
mod Tests
use quorin.Base.{
  ℕ, ◌+◌, ◌≡◌, Bool, true, false, not, Option, none, some, List, [], ◌∷◌, ltb, leb, ◌==◌, contains,
  if◌then◌else◌,
}
use quorin.Registry.{Name, Redis, before_colon, cleanup_dead_pid, drain_cleanup_queue}

-- `_PidEntry`
pub record PidEntry : Type 0 where
  pub last_wall_time : ℕ
  pub create_time : ℕ
  pub miss_count : ℕ

-- `_tracked`, as a dict in insertion order
abbrev pub Tracked : Type 0
Tracked = List (Name × PidEntry)

unfoldable pub get : Name → Tracked → Option PidEntry
get pid [] = none
get pid (e ∷ t) = if e.0 == pid then some e.1 else get pid t

-- `_tracked[pid] = entry`
unfoldable pub put : Name → PidEntry → Tracked → Tracked
put pid entry [] = (pid, entry) ∷ []
put pid entry (e ∷ t) = if e.0 == pid then (pid, entry) ∷ t else e ∷ put pid entry t

-- `_tracked.pop(pid, None)`
unfoldable pub pop : Name → Tracked → Tracked
pop pid [] = []
pop pid (e ∷ t) = if e.0 == pid then t else e ∷ pop pid t

-- The text behind the first `:`
unfoldable pub after_colon : List ℕ → List ℕ
after_colon [] = []
after_colon (c ∷ cs) = if c == b':' then cs else after_colon cs

-- A heartbeat that was read: process, create time, wall time
pub record Heartbeat : Type 0 where
  pub pid : Name
  pub create_time : ℕ
  pub wall_time : ℕ

-- The entry of a process after one look at its heartbeat
unfoldable pub note_wall : Option PidEntry → ℕ → ℕ → PidEntry
note_wall none create wall = record { last_wall_time = wall; create_time = create; miss_count = 0 }
note_wall (some entry) create wall =
    if entry.last_wall_time == wall
    then record entry { miss_count = entry.miss_count + 1 }
    else record { last_wall_time = wall; create_time = create; miss_count = 0 }

unfoldable pub note_heartbeat : Name → Tracked → Heartbeat → Tracked
note_heartbeat self_pid tracked h =
    if h.pid == self_pid
    then tracked
    else put h.pid (note_wall (get h.pid tracked) h.create_time h.wall_time) tracked

pub record Reading : Type 0 where
  pub tracked : Tracked
  pub seen_pids : List Name
  pub malformed_count : ℕ

-- One pair of the hash, parsed
unfoldable pub read_one : Name → Reading → Option Heartbeat → Reading
read_one self_pid r none = record r { malformed_count = r.malformed_count + 1 }
read_one self_pid r (some h) = record r {
  tracked = note_heartbeat self_pid r.tracked h;
  seen_pids = h.pid ∷ r.seen_pids;
}

infixl 5 ◌>>=◌
abbrev ◌>>=◌ {ℓ κ} : {A : Type ℓ} {B : Type κ} → Option A → (A → Option B) → Option B
none >>= next = none
some a >>= next = next a

module _ (int : List ℕ → Option ℕ) where
  -- `int(raw_pid)` and `_parse_heartbeat_value`; `none` is the ValueError
  unfoldable pub parse_heartbeat : List ℕ → List ℕ → Option Heartbeat
  parse_heartbeat raw_pid raw_value = do
    pid ← int raw_pid
    text ← before_colon raw_value
    create ← int text
    wall ← int (after_colon raw_value)
    some (record { pid = pid; create_time = create; wall_time = wall })

  -- Step 2 of the tick, over the pairs that HGETALL returned
  unfoldable pub read_heartbeats : Name → List (List ℕ × List ℕ) → Reading → Reading
  read_heartbeats self_pid [] r = r
  read_heartbeats self_pid (kv ∷ raw) r =
      read_heartbeats self_pid raw (read_one self_pid r (parse_heartbeat kv.0 kv.1))

-- `ready_for_check`
unfoldable pub ready_for_check : ℕ → Tracked → List Name
ready_for_check threshold [] = []
ready_for_check threshold (e ∷ t) =
    if leb threshold (e.1).miss_count
    then e.0 ∷ ready_for_check threshold t
    else ready_for_check threshold t

-- What `psutil.Process(pid).create_time()` comes to
pub data Process : Type 0 where
  running : ℕ → Process
  no_such_process zombie_process access_denied : Process

pub data Check : Type 0 where
  dead alive unverifiable : Check

-- `_cross_check`
unfoldable pub cross_check : Process → ℕ → Check
cross_check (running create_time) expected = if create_time == expected then alive else dead
cross_check no_such_process expected = dead
cross_check zombie_process expected = unverifiable
cross_check access_denied expected = unverifiable

-- What `posix_shm.unlink` comes to: FileNotFoundError is `already_gone`, another OSError `failed`.
pub data Unlink : Type 0 where
  unlinked already_gone failed : Unlink

pub record Tick : Type 0 where
  pub redis : Redis
  pub tracked : Tracked
  pub dead_pids : List Name
  pub segments_unlinked_dead : ℕ
  pub unverifiable_count : ℕ
  pub pid_reuse_aborts : ℕ
  -- The segments that this tick unlinked
  pub unlinked_names : List Name

-- The bookkeeping after the script returned its count, or -1
unfoldable pub note_cleanup : Tick → Name → Redis → Option ℕ → Tick
note_cleanup t pid after none = record t {
  redis = after;
  pid_reuse_aborts = t.pid_reuse_aborts + 1;
  tracked = pop pid t.tracked;
}
note_cleanup t pid after (some count) = record t {
  redis = after;
  dead_pids = pid ∷ t.dead_pids;
  segments_unlinked_dead = t.segments_unlinked_dead + count;
  tracked = pop pid t.tracked;
}

module _ (str : ℕ → List ℕ) (process : Name → Process) where
  unfoldable pub after_check : Tick → Name → PidEntry → Check → Tick
  after_check t pid entry unverifiable = record t { unverifiable_count = t.unverifiable_count + 1 }
  after_check t pid entry alive = t
  after_check t pid entry dead =
      let (after, returned) = cleanup_dead_pid t.redis pid (str entry.create_time) in
      note_cleanup t pid after returned

  -- The check of a process whose entry is at hand
  unfoldable pub reap : Tick → Name → Option PidEntry → Tick
  reap t pid none = t
  reap t pid (some entry) = after_check t pid entry (cross_check (process pid) entry.create_time)

  -- Step 3 over `ready_for_check`; a process that is listed is tracked
  unfoldable pub reap_all : Tick → List Name → Tick
  reap_all t [] = t
  reap_all t (pid ∷ pids) = reap_all (reap t pid (get pid t.tracked)) pids

-- The rest of the loop after an unlink that was done, found nothing, or raised
abbrev pub after_unlink : Unlink → Tick × Bool → Tick × Bool → Tick × Bool → Tick × Bool
after_unlink unlinked next skip raised = next
after_unlink already_gone next skip raised = skip
after_unlink failed next skip raised = raised

-- Step 4 over the drained names; `true` where an OSError ends the tick
unfoldable pub unlink_all : (Name → Unlink) → Tick → List Name → Tick × Bool
unlink_all unlink t [] = (t, false)
unlink_all unlink t (name ∷ names) =
    let next = unlink_all unlink (record t { unlinked_names = name ∷ t.unlinked_names }) names in
    let skip = unlink_all unlink t names in after_unlink (unlink name) next skip (t, true)

-- Step 5: entries whose process was not in the hash are dropped.
unfoldable pub prune : List Name → Tracked → Tracked
prune seen [] = []
prune seen (e ∷ t) = if contains e.0 seen then e ∷ prune seen t else prune seen t

-- The tick after HGETALL returned `raw`; `true` where it raised
module _ (int : List ℕ → Option ℕ) (str : ℕ → List ℕ) (process : Name → Process)
    (unlink : Name → Unlink) (self_pid miss_threshold batch_drain_size : ℕ) where
  unfoldable pub run_one_tick : Redis → Tracked → List (List ℕ × List ℕ) → Tick × Bool
  run_one_tick redis tracked raw =
      let reading =
        read_heartbeats int self_pid raw
          (record { tracked = tracked; seen_pids = []; malformed_count = 0 }) in
      let begun : Tick = record {
        redis = redis;
        tracked = reading.tracked;
        dead_pids = [];
        segments_unlinked_dead = 0;
        unverifiable_count = 0;
        pid_reuse_aborts = 0;
        unlinked_names = [];
      } in
      let reaped = reap_all str process begun (ready_for_check miss_threshold reading.tracked) in
      let (drained, names) = drain_cleanup_queue reaped.redis batch_drain_size in
      let (cleared, raised) = unlink_all unlink (record reaped { redis = drained }) names in
      if raised
      then (cleared, true)
      else (record cleared { tracked = prune reading.seen_pids cleared.tracked }, false)
