-- ===== src/Registry.antt =====
-- quorin/shm.py, quorin/_internal/watchdog_lua.py and quorin/_internal/evolution_lua.py: the
-- Redis keys that say which process holds which segment, and the transactions on them.
-- A name (of a segment, a schema or a process) is a number, since the code compares names and
-- appends them to key prefixes, and does no more with them. A counter that is missing, and one
-- that a script has deleted, is 0: no script leaves a counter at or below 0.
pub mod Invariant
pub mod Pointed
pub mod Steps
pub mod Late
pub mod Holders
pub mod Counting
pub mod Cleanup
pub mod Leak
pub mod Maps
pub mod Tests
use quorin.Base.{
  contains, ℕ, ◌+◌, ◌-◌, ◌≡◌, Bool, true, false, ◌||◌, Option, none, some, List, [], ◌∷◌, ◌++◌,
  take, drop, leb, ◌==◌, bytes_eq, if◌then◌else◌, not,
}
use quorin.Result.{Result, ok, err, segment_not_found}

abbrev pub Name : Type 0
Name = ℕ

pub record Redis : Type 0 where
  pub current : Name → Option Name
  pub refcount : Name → ℕ
  pub pid_segments : Name → List Name
  pub heartbeats : Name → Option (List ℕ)
  pub cleanup_queue : List Name
  pub segment_to_schema : Name → Option Name

-- A map with one key set
abbrev pub set_at {ℓ} : {A : Type ℓ} → (ℕ → A) → ℕ → A → ℕ → A
set_at f key value x = if x == key then value else f x

unfoldable pub sadd : Name → List Name → List Name
sadd n s = if contains n s then s else n ∷ s

unfoldable pub srem : Name → List Name → List Name
srem n [] = []
srem n (m ∷ ms) = if n == m then srem n ms else m ∷ srem n ms

abbrev pub is_name : Option Name → Name → Bool
is_name none n = false
is_name (some m) n = m == n

-- The pipeline of `SegmentRegistry.create`
unfoldable pub create_transaction : Redis → Name → Name → Name → Bool → Redis
unfolding sadd
create_transaction r pid schema name set_current = record r {
  current = if set_current then set_at r.current schema (some name) else r.current;
  refcount = set_at r.refcount name 1;
  pid_segments = set_at r.pid_segments pid (sadd name (r.pid_segments pid));
  segment_to_schema = set_at r.segment_to_schema name (some schema);
}

-- The pipeline of `open_current`, on the name that it has read before
unfoldable pub open_transaction : Redis → Name → Name → Redis
unfolding sadd
open_transaction r pid name = record r {
  refcount = set_at r.refcount name (r.refcount name + 1);
  pid_segments = set_at r.pid_segments pid (sadd name (r.pid_segments pid));
}

-- The read of the pointer in `open_current`
unfoldable pub current_segment : Redis → Name → Result Name
current_segment r schema = elim (r.current schema) [
  | none ↦ err segment_not_found
  | some name ↦ ok name
]

-- What both scripts do with the side table of a segment whose counter is used up
unfoldable pub clear_schema : Redis → Name → Redis
clear_schema r name = elim (r.segment_to_schema name) [
  | none ↦ r
  | some schema ↦ record r {
    current = if is_name (r.current schema) name then set_at r.current schema none else r.current;
    segment_to_schema = set_at r.segment_to_schema name none;
  }
]

-- `DECR`, and what follows where the counter is used up: the name is queued, its pointer cleared
-- and the counter deleted. The second component tells whether it was.
unfoldable pub release : Redis → Name → Redis × Bool
unfolding clear_schema sadd
release r name =
    let n = r.refcount name - 1 in
    let decremented = record r { refcount = set_at r.refcount name n } in
    if leb n 0
    then (
      record (clear_schema decremented name) {
        cleanup_queue = sadd name r.cleanup_queue;
        refcount = set_at r.refcount name 0;
      },
      true,
    )
    else (decremented, false)

-- `_CLOSE_LUA`
unfoldable pub close_script : Redis → Name → Name → Redis
unfolding release srem
close_script r pid name =
    let after = (release r name).0 in
    record after {
      pid_segments = set_at after.pid_segments pid (srem name (after.pid_segments pid));
    }

-- The loop of `CLEANUP_DEAD_PID_LUA` over the names of `SMEMBERS`, with `zeroed_count`
unfoldable pub release_all : Redis → List Name → Redis × ℕ
unfolding release
release_all r [] = (r, 0)
release_all r (name ∷ names) =
    let (after, zeroed) = release r name in
    let (last, count) = release_all after names in (last, if zeroed then count + 1 else count)

-- The text before the first `:`
unfoldable pub before_colon : List ℕ → Option (List ℕ)
before_colon [] = none
before_colon (c ∷ cs) =
    let rest = before_colon cs in
    if c == b':' then some [] else elim rest [ none ↦ none | some text ↦ some (c ∷ text) ]

abbrev pub differs : Option (List ℕ) → List ℕ → Bool
differs none expected = false
differs (some text) expected = not (bytes_eq text expected)

-- The PID-reuse guard: a heartbeat with another create time
unfoldable pub is_reused : Option (List ℕ) → List ℕ → Bool
is_reused none expected = false
is_reused (some value) expected = differs (before_colon value) expected

-- `CLEANUP_DEAD_PID_LUA`; `none` stands for the return value -1
unfoldable pub cleanup_dead_pid : Redis → Name → List ℕ → Redis × Option ℕ
unfolding release_all is_reused
cleanup_dead_pid r pid expected_create_time =
    let (after, zeroed) = release_all r (r.pid_segments pid) in
    if is_reused (r.heartbeats pid) expected_create_time then (r, none) else (
      record after {
        pid_segments = set_at after.pid_segments pid [];
        heartbeats = set_at after.heartbeats pid none;
      },
      some zeroed,
    )

-- `DRAIN_CLEANUP_QUEUE_LUA`, where `SPOP` takes the head of the set as it is listed
unfoldable pub drain_cleanup_queue : Redis → ℕ → Redis × List Name
drain_cleanup_queue r max =
    (record r { cleanup_queue = drop max r.cleanup_queue }, take max r.cleanup_queue)

-- `FLIP_SCHEMA_CURRENT_LUA`: the results 1, 0 and -1
pub data Flip : Type 0 where
  flipped mismatch missing : Flip

unfoldable pub flip_schema_current : Redis → Name → Name → Name → Redis × Flip
flip_schema_current r schema expected_old new_name = elim (r.current schema) [
  | none ↦ (r, missing)
  | some name ↦
      if name == expected_old
      then (record r { current = set_at r.current schema (some new_name) }, flipped)
      else (r, mismatch)
]
