-- ===== src/Registry/Cleanup.antt =====
-- What the clean-up of a dead process does to every key.
use quorin.Base.{
  contains, is_set, ℕ, ◌+◌, ◌-◌, ◌≡◌, ◌≢◌, refl, arith, true, false, ◌||◌, ◌&&◌, none, some, List,
  [], ◌∷◌, ◌++◌, leb, ◌==◌, Bool-cases, inl, inr, ==_self, All, bytes_eq, bytes_eq→eq,
}
use quorin.Registry.{
  Name, Redis, set_at, clear_schema, release, release_all, before_colon, is_reused,
  cleanup_dead_pid,
}
use quorin.Registry.Invariant.{contains-sadd}
use quorin.Registry.Holders.{one_if, release-refcount, release_all-refcount}

release-cleanup_queue :
    (r : Redis) (name n : Name)
    → contains n ((release r name).0).cleanup_queue
      ≡ (contains n r.cleanup_queue || ((n == name) && leb (r.refcount n) 1))
unfolding release clear_schema
release-cleanup_queue r name n = let added = contains-sadd n name r.cleanup_queue in ground arith

release_all-cleanup_queue :
    (r : Redis) (names : List Name) (n : Name)
    → is_set names ≡ true
    → contains n ((release_all r names).0).cleanup_queue
      ≡ (contains n r.cleanup_queue || (contains n names && leb (r.refcount n) 1))
unfolding release_all
release_all-cleanup_queue r [] n h = ground arith
release_all-cleanup_queue r (name ∷ names) n h =
    let rest = release_all-cleanup_queue (release r name).0 names n in
    let first = release-cleanup_queue r name n in
    let down = release-refcount r name n in ground arith

-- How many of the names have a counter that the next decrement uses up
unfoldable pub last_uses : Redis → List Name → ℕ
last_uses r [] = 0
last_uses r (n ∷ ns) = one_if (leb (r.refcount n) 1) + last_uses r ns

last_uses-release :
    (r : Redis) (name : Name) (names : List Name)
    → contains name names ≡ false
    → last_uses (release r name).0 names ≡ last_uses r names
unfolding last_uses
last_uses-release r name [] h = refl
last_uses-release r name (n ∷ ns) h =
    let rest = last_uses-release r name ns in let down = release-refcount r name n in ground arith

release_all-last_uses :
    (r : Redis) (names : List Name)
    → is_set names ≡ true
    → (release_all r names).1 ≡ last_uses r names
unfolding release_all last_uses
release_all-last_uses r [] h = refl
release_all-last_uses r (name ∷ names) h =
    let rest = release_all-last_uses (release r name).0 names in
    let kept = last_uses-release r name names in
    let used : (release r name).1 ≡ leb (r.refcount name) 1 = unfold release in ground arith in
    ground arith

-- The keys after the clean-up of process `pid` in `r`
pub record CleanedUp (r : Redis) (pid : Name) (s : Redis) : Type 0 where
  pub refcount : (n : Name) → s.refcount n ≡ r.refcount n - one_if (contains n (r.pid_segments pid))
  pub queue :
      (n : Name)
      → contains n s.cleanup_queue
        ≡ (contains n r.cleanup_queue || (contains n (r.pid_segments pid) && leb (r.refcount n) 1))
  pub held : s.pid_segments pid ≡ []
  pub heartbeat : s.heartbeats pid ≡ none

-- Without a heartbeat of a later process with its number, the clean-up of a dead process takes one off
-- the counter of each segment that the process held, queues those whose counter this uses up and no
-- others, returns how many these are, and forgets the process.
pub cleanup_dead_pid_lem :
    (r : Redis) (pid : Name) (created : List ℕ)
    → is_set (r.pid_segments pid) ≡ true
    → is_reused (r.heartbeats pid) created ≡ false
    → (s : Redis) × (cleanup_dead_pid r pid created ≡ (s, some (last_uses r (r.pid_segments pid))))
      × CleanedUp r pid s
unfolding cleanup_dead_pid
cleanup_dead_pid_lem r pid created set fresh =
    let held = r.pid_segments pid in
    let after = (release_all r held).0 in
    (
      record after {
        pid_segments = set_at after.pid_segments pid [];
        heartbeats = set_at after.heartbeats pid none;
      },
      rw (fresh, release_all-last_uses r held set) refl,
      record {
        refcount = λ n. release_all-refcount r held n set;
        queue = λ n. release_all-cleanup_queue r held n set;
        held = rw (==_self pid) refl;
        heartbeat = rw (==_self pid) refl;
      },
    )

before_colon-append :
    (text rest : List ℕ)
    → All (λ c. (c == b':') ≡ false) text
    → before_colon (text ++ b':' ∷ rest) ≡ some text
unfolding before_colon
before_colon-append [] rest a = refl
before_colon-append (c ∷ cs) rest a = rw (a.0, before_colon-append cs rest a.1) refl

is_reused-append :
    (created expected wall : List ℕ)
    → All (λ c. (c == b':') ≡ false) created
    → created ≢ expected
    → is_reused (some (created ++ b':' ∷ wall)) expected ≡ true
unfolding is_reused
is_reused-append created expected wall plain ne =
    rw (before_colon-append created wall plain) (elim (Bool-cases (bytes_eq created expected)) [
      | inl y ↦ absurd (ne (bytes_eq→eq created expected y))
      | inr n ↦ rw n refl
    ])

-- Where the heartbeat of the process shows another create time, the clean-up returns -1 and changes
-- nothing: the process number is in use again.
pub cleanup_dead_pid_reused :
    (r : Redis) (pid : Name) (created expected wall : List ℕ)
    → r.heartbeats pid ≡ some (created ++ b':' ∷ wall)
    → All (λ c. (c == b':') ≡ false) created
    → created ≢ expected
    → cleanup_dead_pid r pid expected ≡ (r, none)
unfolding cleanup_dead_pid
cleanup_dead_pid_reused r pid created expected wall beat plain ne =
    rw (beat, is_reused-append created expected wall plain ne) refl
