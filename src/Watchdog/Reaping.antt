-- ===== src/Watchdog/Reaping.antt =====
-- The clean-up and a process that runs.
use quorin.Base.{
  ℕ, ◌≡◌, refl, sym, subst, ◌∙◌, ap, arith, true, false, Option, none, some, List, [], ◌∷◌, ◌==◌,
  contains, Bool-cases, inl, inr, All, ==→eq, eq→==,
}
use quorin.Registry.{Name, Redis, is_reused, cleanup_dead_pid}
use quorin.Registry.Holders.{release_all-pid_segments}
use quorin.Watchdog.{
  PidEntry, Tracked, get, put, pop, Heartbeat, note_wall, note_heartbeat, Reading, parse_heartbeat,
  read_heartbeats, Process, running, cross_check, Tick, read_one, note_cleanup, after_check, dead,
  alive, unverifiable, Check, reap, reap_all,
}

-- Every entry of the process has the create time.
abbrev pub Recorded : Name → ℕ → Tracked → Type 0
Recorded p ct = All (λ e. (e.0 == p) ≡ true → (e.1).create_time ≡ ct)

get-Recorded :
    (p : Name) (ct : ℕ) (t : Tracked) (entry : PidEntry)
    → Recorded p ct t
    → get p t ≡ some entry
    → entry.create_time ≡ ct
unfolding get
get-Recorded p ct [] entry a h = cc
get-Recorded p ct (e ∷ t) entry a h = elim (Bool-cases (e.0 == p)) [
  | inl y ↦ subst (λ (o : Option PidEntry). create_of ct o ≡ ct) (rw y at h) (a.0 y)
  | inr n ↦ get-Recorded p ct t entry a.1 (rw n at h)
]
  where
    create_of : ℕ → Option PidEntry → ℕ
    create_of c none = c
    create_of c (some e) = e.create_time

put-Recorded :
    (p : Name) (ct : ℕ) (q : Name) (entry : PidEntry) (t : Tracked)
    → ((q == p) ≡ true → entry.create_time ≡ ct)
    → Recorded p ct t
    → Recorded p ct (put q entry t)
unfolding put
put-Recorded p ct q entry [] new a = (new, tt)
put-Recorded p ct q entry (e ∷ t) new a = elim (Bool-cases (e.0 == q)) [
  | inl y ↦ rw y (new, a.1)
  | inr n ↦ rw n (a.0, put-Recorded p ct q entry t new a.1)
]

pop-Recorded :
    (p : Name) (ct : ℕ) (q : Name) (t : Tracked) → Recorded p ct t → Recorded p ct (pop q t)
unfolding pop
pop-Recorded p ct q [] a = tt
pop-Recorded p ct q (e ∷ t) a = elim (Bool-cases (e.0 == q)) [
  | inl y ↦ rw y a.1
  | inr n ↦ rw n (a.0, pop-Recorded p ct q t a.1)
]

note_wall_create :
    (o : Option PidEntry) (create wall ct : ℕ)
    → ((entry : PidEntry) → o ≡ some entry → entry.create_time ≡ ct)
    → create ≡ ct
    → (note_wall o create wall).create_time ≡ ct
unfolding note_wall
note_wall_create none create wall ct old new = new
note_wall_create (some entry) create wall ct old new = let kept = old entry refl in ground arith

note_heartbeat-Recorded :
    (p self_pid : Name) (ct : ℕ) (t : Tracked) (h : Heartbeat)
    → ((h.pid == p) ≡ true → h.create_time ≡ ct)
    → Recorded p ct t
    → Recorded p ct (note_heartbeat self_pid t h)
unfolding note_heartbeat
note_heartbeat-Recorded p self_pid ct t h new a = elim (Bool-cases (h.pid == self_pid)) [
  | inl y ↦ rw y a
  | inr n ↦ rw n (
      put-Recorded p ct h.pid (note_wall (get h.pid t) h.create_time h.wall_time) t
        (λ y.
          note_wall_create (get h.pid t) h.create_time h.wall_time ct
            (λ entry e.
              get-Recorded p ct t entry a (subst (λ q. get q t ≡ some entry) (==→eq h.pid p y) e))
            (new y))
        a)
]

module _ (int : List ℕ → Option ℕ) (p : Name) (ct : ℕ) where
  -- The heartbeats of the process show its create time.
  abbrev pub Truthful : List (List ℕ × List ℕ) → Type 0
  Truthful = All (λ kv.
      (h : Heartbeat)
      → parse_heartbeat int kv.0 kv.1 ≡ some h
      → (h.pid == p) ≡ true
      → h.create_time ≡ ct)

  read_one-Recorded :
      (self_pid : Name) (r : Reading) (o : Option Heartbeat)
      → ((h : Heartbeat) → o ≡ some h → (h.pid == p) ≡ true → h.create_time ≡ ct)
      → Recorded p ct r.tracked
      → Recorded p ct (read_one self_pid r o).tracked
  unfolding read_one
  read_one-Recorded self_pid r none truth a = a
  read_one-Recorded self_pid r (some h) truth a =
      note_heartbeat-Recorded p self_pid ct r.tracked h (truth h refl) a

  pub read_heartbeats-Recorded :
      (self_pid : Name) (raw : List (List ℕ × List ℕ)) (r : Reading)
      → Truthful raw
      → Recorded p ct r.tracked
      → Recorded p ct (read_heartbeats int self_pid raw r).tracked
  unfolding read_heartbeats
  read_heartbeats-Recorded self_pid [] r truth a = a
  read_heartbeats-Recorded self_pid (kv ∷ raw) r truth a =
      read_heartbeats-Recorded self_pid raw (read_one self_pid r (parse_heartbeat int kv.0 kv.1))
        truth.1 (read_one-Recorded self_pid r (parse_heartbeat int kv.0 kv.1) truth.0 a)

cleanup_apart :
    (r : Redis) (p q : Name) (created : List ℕ)
    → (p == q) ≡ false
    → (cleanup_dead_pid r q created).0.pid_segments p ≡ r.pid_segments p
unfolding cleanup_dead_pid
cleanup_apart r p q created ne = elim (Bool-cases (is_reused (r.heartbeats q) created)) [
  | inl y ↦ rw y refl
  | inr n ↦
      rw (n, ne)
        (ap (λ (f : Name → List Name). f p) (release_all-pid_segments r (r.pid_segments q)))
]

-- The process is not among the dead, holds the segments `held`, and is recorded with its create time.
pub record Spared (p : Name) (ct : ℕ) (held : List Name) (t : Tick) : Type 0 where
  pub not_dead : contains p t.dead_pids ≡ false
  pub holds : t.redis.pid_segments p ≡ held
  pub recorded : Recorded p ct t.tracked

note_cleanup-Spared :
    (p : Name) (ct : ℕ) (held : List Name) (t : Tick) (q : Name) (after : Redis) (o : Option ℕ)
    → (p == q) ≡ false
    → after.pid_segments p ≡ held
    → Spared p ct held t
    → Spared p ct held (note_cleanup t q after o)
unfolding note_cleanup
note_cleanup-Spared p ct held t q after none ne same s = record {
  not_dead = s.not_dead;
  holds = same;
  recorded = pop-Recorded p ct q t.tracked s.recorded;
}
note_cleanup-Spared p ct held t q after (some count) ne same s = record {
  not_dead = let old = s.not_dead in ground arith;
  holds = same;
  recorded = pop-Recorded p ct q t.tracked s.recorded;
}

module _ (str : ℕ → List ℕ) (process : Name → Process) (p : Name) (ct : ℕ) (held : List Name)
    (runs : process p ≡ running ct) where
  after_check-Spared :
      (t : Tick) (q : Name) (entry : PidEntry) (c : Check)
      → ((p == q) ≡ true → c ≡ alive)
      → Spared p ct held t
      → Spared p ct held (after_check str process t q entry c)
  unfolding after_check
  after_check-Spared t q entry unverifiable me s = record {
    not_dead = s.not_dead;
    holds = s.holds;
    recorded = s.recorded;
  }
  after_check-Spared t q entry alive me s = s
  after_check-Spared t q entry dead me s = elim (Bool-cases (p == q)) [
    | inl y ↦ cc (me y)
    | inr n ↦
        note_cleanup-Spared p ct held t q _ _ n
          (cleanup_apart t.redis p q (str entry.create_time) n ∙ s.holds) s
  ]

  reap-Spared :
      (t : Tick) (q : Name) (o : Option PidEntry)
      → get q t.tracked ≡ o
      → Spared p ct held t
      → Spared p ct held (reap str process t q o)
  unfolding reap cross_check
  reap-Spared t q none e s = s
  reap-Spared t q (some entry) e s =
      after_check-Spared t q entry (cross_check (process q) entry.create_time)
        (λ y. checked (==→eq p q y)) s
    where
      checked : p ≡ q → cross_check (process q) entry.create_time ≡ alive
      checked same =
          let recorded =
            get-Recorded p ct t.tracked entry s.recorded
              (subst (λ k. get k t.tracked ≡ some entry) (sym same) e) in
          subst (λ k. cross_check (process k) entry.create_time ≡ alive) same
            (rw (runs, eq→== ct entry.create_time (sym recorded)) refl)

  pub reap_all-Spared :
      (t : Tick) (pids : List Name)
      → Spared p ct held t
      → Spared p ct held (reap_all str process t pids)
  unfolding reap_all
  reap_all-Spared t [] s = s
  reap_all-Spared t (q ∷ pids) s =
      reap_all-Spared (reap str process t q (get q t.tracked)) pids
        (reap-Spared t q (get q t.tracked) refl s)
