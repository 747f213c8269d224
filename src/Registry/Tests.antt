-- ===== src/Registry/Tests.antt =====
-- The theorems on the registry for processes 1 and 2, schema 7 and segments 10 and 11.
use quorin.Base.{contains, ◌≡◌, refl, true, false, none, some, [], ◌∷◌, ◌==◌, if◌then◌else◌}
use quorin.Registry.{
  Redis, sadd, create_transaction, open_transaction, close_script, is_reused, before_colon,
  cleanup_dead_pid,
}
use quorin.Registry.Invariant.{IsRegistry}
use quorin.Registry.Steps
use quorin.Registry.Steps.{Shared, Run, Run-IsPointed}
use quorin.Registry.Pointed.{IsPointed}
use quorin.Registry.Late.{close-open_current}
use quorin.Registry.Counting
use quorin.Registry.Counting.{OnceRun, OnceRun-IsCounted}
use quorin.Registry.Holders.{IsCounted, holders}
use quorin.Registry.Leak.{reopened, reopened_leak}

abbrev pub idle : Redis
idle = record {
  current = λ s. none;
  refcount = λ n. 0;
  pid_segments = λ p. [];
  heartbeats = λ p. none;
  cleanup_queue = [];
  segment_to_schema = λ n. none;
}

pub idle-IsRegistry : IsRegistry idle
idle-IsRegistry = record { registered = λ s n h. cc; in_use = λ s n h. cc; unused = λ n h. refl }

idle-IsCounted : IsCounted (1 ∷ 2 ∷ []) idle
unfolding holders
idle-IsCounted = record { counted = λ n. refl; sets = λ p. refl }

abbrev pub created : Redis
created = create_transaction idle 1 7 10 true

abbrev shared : Redis
shared = open_transaction created 2 10

abbrev closed : Redis
closed = close_script shared 1 10

points_at_ten : created.current 7 ≡ some 10
unfolding create_transaction
points_at_ten = refl

-- Process 2 reads the pointer, process 1 closes the segment, and process 2 counts itself.
abbrev late : Redis
late = open_transaction (close_script created 1 10) 2 10

abbrev calm : Shared
calm = record { registry = idle; reads = [] }

calm-Run : Run calm (record { registry = late; reads = 10 ∷ [] })
calm-Run =
    Steps.then_step
      (Steps.then_step
        (Steps.then_step (Steps.then_step Steps.start (Steps.create 1 7 10 true (λ t e. cc)))
          (Steps.read_current 7 10 points_at_ten))
        (Steps.close 1 10))
      (Steps.open_read 2 10 refl)

Run-IsPointed_example : IsPointed late
Run-IsPointed_example =
    Run-IsPointed (record { registered = λ s n h. cc; in_use = λ s n h. cc }) calm-Run

once_counted : created.refcount 10 ≡ 1
unfolding create_transaction
once_counted = refl

close-open_current_example :
    (contains 10 late.cleanup_queue ≡ true)
    × (late.refcount 10 ≡ 1)
    × (contains 10 (late.pid_segments 2) ≡ true)
close-open_current_example = close-open_current created 1 2 10 once_counted

not_held : contains 10 (created.pid_segments 2) ≡ false
unfolding create_transaction
not_held = refl

held_by_one : contains 10 (shared.pid_segments 1) ≡ true
unfolding create_transaction open_transaction sadd
held_by_one = refl

idle-OnceRun : OnceRun (1 ∷ 2 ∷ []) idle closed
idle-OnceRun =
    Counting.then_step
      (Counting.then_step
        (Counting.then_step Counting.start (Counting.create 1 7 10 true refl refl))
        (Counting.open_current 2 10 refl not_held))
      (Counting.close 1 10 refl held_by_one)

OnceRun-IsCounted_example : IsCounted (1 ∷ 2 ∷ []) closed
OnceRun-IsCounted_example = OnceRun-IsCounted (1 ∷ 2 ∷ []) refl idle-IsCounted idle-OnceRun

-- Process 1 holds two segments; of the second it is not the last user. Its heartbeat is "5:9".
abbrev pub busy : Redis
busy = record idle {
  refcount = λ n. if n == 10 then 1 else 2;
  pid_segments = λ p. if p == 1 then 10 ∷ 11 ∷ [] else 11 ∷ [];
  heartbeats = λ p. if p == 1 then some (b'5' ∷ b':' ∷ b'9' ∷ []) else none;
}

same_time : is_reused (busy.heartbeats 1) (b'5' ∷ []) ≡ false
unfolding is_reused before_colon
same_time = refl

not_reused : is_reused (idle.heartbeats 1) (b'5' ∷ []) ≡ false
unfolding is_reused
not_reused = refl

reopened_leak_example :
    ((cleanup_dead_pid (reopened idle 1 7 10) 1 (b'5' ∷ [])).0.refcount 10 ≡ 1)
    × ((cleanup_dead_pid (reopened idle 1 7 10) 1 (b'5' ∷ [])).0.pid_segments 1 ≡ [])
    × (contains 10 (cleanup_dead_pid (reopened idle 1 7 10) 1 (b'5' ∷ [])).0.cleanup_queue ≡ false)
reopened_leak_example = reopened_leak idle 1 7 10 (b'5' ∷ []) refl not_reused refl
