-- ===== src/GcManager/Parallel.antt =====
-- Starts that leave a second collector thread beside the first.
use quorin.Base.{
  ℕ, ◌<◌, ◌≡◌, ◌≢◌, refl, sym, ◌∙◌, ap, arith, Bool, true, false, not, ◌&&◌, ◌||◌, none, some, List,
  [], ◌∷◌, contains, contains-append, Bool-cases, inl, inr, if◌then◌else◌,
}
use quorin.GcManager.{
  Manager, gc_callback, remove, is_none, is_timer_running, install, start_timer, start_collector,
  set_event, join_thread, release, clear_pauses, stop_collector,
}

-- A start that runs a thread: what it leaves alone, and what it adds
record Started (k h : Manager) : Type 0 where
  zombies : h.zombies ≡ k.zombies
  alive : h.alive ≡ k.spawned ∷ k.alive
  thread : h.thread ≡ some k.spawned
  event : h.stop_event ≡ some k.spawned
  stopping : h.stopping ≡ k.stopping

start_timer-Started :
    (k : Manager) (b : Bool) (interval : ℕ)
    → Started k (start_timer (if b then install k else k) (some interval))
unfolding start_timer install
start_timer-Started k true interval = record {
  zombies = refl;
  alive = refl;
  thread = refl;
  event = refl;
  stopping = refl;
}
start_timer-Started k false interval = record {
  zombies = refl;
  alive = refl;
  thread = refl;
  event = refl;
  stopping = refl;
}

-- With no thread that runs, and with the callback still to be installed
start_collector-Started :
    (k : Manager) (b : Bool) (interval : ℕ)
    → ((not b || contains gc_callback k.callbacks) && is_timer_running k) ≡ false
    → Started k (start_collector k b (some interval))
unfolding start_collector
start_collector-Started k b interval more = rw more (start_timer-Started k b interval)

and_false : (b : Bool) → (b && false) ≡ false
and_false true = refl
and_false false = refl

-- A stop with a thread at hand
stop_collector-busy :
    (g : Manager) (t : ℕ) (ended : Bool)
    → g.thread ≡ some t
    → stop_collector g ended ≡ clear_pauses (join_thread (release g) (some t) ended)
unfolding stop_collector
stop_collector-busy g t ended at_hand =
    let busy : (not (contains gc_callback g.callbacks) && is_none g.thread) ≡ false =
      ap (λ o. not (contains gc_callback g.callbacks) && is_none o) at_hand ∙ and_false _ in
    rw busy (ap (λ o. clear_pauses (join_thread (release g) o ended)) at_hand)

contains-remove_other :
    (t u : ℕ) (xs : List ℕ) → t ≢ u → contains t xs ≡ true → contains t (remove u xs) ≡ true
unfolding remove
contains-remove_other t u [] ne h = h
contains-remove_other t u (x ∷ xs) ne h = ground (arith, contains-remove_other t u xs)

-- What a stop of thread `u` means for another thread
module _ (h : Manager) (t u : ℕ) (ended : Bool) (at_hand : h.thread ≡ some u) (ne : t ≢ u) where
  other_runs : contains t h.alive ≡ true → contains t (stop_collector h ended).alive ≡ true
  unfolding clear_pauses join_thread release
  other_runs on = rw (stop_collector-busy h u ended at_hand) (elim (Bool-cases ended) [
    | inl y ↦ rw y (contains-remove_other t u h.alive ne on)
    | inr k ↦ rw k (elim (Bool-cases (contains u h.alive)) [ inl y ↦ rw y on | inr n ↦ rw n on ])
  ])

  other_untold :
      h.stop_event ≡ some u
      → contains t h.stopping ≡ false
      → contains t (stop_collector h ended).stopping ≡ false
  unfolding clear_pauses join_thread release set_event
  other_untold event untold = rw (stop_collector-busy h u ended at_hand) (elim (Bool-cases ended) [
    | inl y ↦ rw (y, event) (ground (arith, ne))
    | inr k ↦ rw k (elim (Bool-cases (contains u h.alive)) [
      | inl y ↦ rw (y, event) (ground (arith, ne))
      | inr n ↦ rw (n, event) (ground (arith, ne))
    ])
  ])

  gone_from_hand : (stop_collector h ended).thread ≡ none
  unfolding clear_pauses join_thread release
  gone_from_hand = rw (stop_collector-busy h u ended at_hand) (elim (Bool-cases ended) [
    | inl y ↦ rw y refl
    | inr k ↦
        rw k (elim (Bool-cases (contains u h.alive)) [ inl y ↦ rw y refl | inr n ↦ rw n refl ])
  ])

module _ (g : Manager) (t : ℕ) (numbered : t < g.spawned) (at_hand : g.thread ≡ some t)
    (on : contains t g.alive ≡ true) (interval : ℕ) where
  stopped_idle : is_timer_running (stop_collector g false) ≡ false
  unfolding is_timer_running clear_pauses join_thread release
  stopped_idle = rw (stop_collector-busy g t false at_hand, on) refl

  stopped_zombie : contains t (stop_collector g false).zombies ≡ true
  unfolding clear_pauses join_thread release
  stopped_zombie =
      rw (stop_collector-busy g t false at_hand, on)
        (ground (arith, contains-append t g.zombies (t ∷ [])))

  stopped_alive : contains t (stop_collector g false).alive ≡ true
  unfolding clear_pauses join_thread release
  stopped_alive = rw (stop_collector-busy g t false at_hand, on) on

  stopped_spawned : (stop_collector g false).spawned ≡ g.spawned
  unfolding clear_pauses join_thread release
  stopped_spawned = rw (stop_collector-busy g t false at_hand, on) refl

  -- Whatever the flags, for a thread that was started before: after a stop whose join timed out, the thread is tracked as a zombie, and a start with an
  -- interval runs a second collector thread beside it.
  pub zombie_parallel :
      (install_callback : Bool)
      → (contains t
            (start_collector (stop_collector g false) install_callback (some interval)).zombies
          ≡ true)
        × (contains t
              (start_collector (stop_collector g false) install_callback (some interval)).alive
            ≡ true)
        × ((start_collector (stop_collector g false) install_callback (some interval)).thread
            ≡ some g.spawned)
        × (contains g.spawned
              (start_collector (stop_collector g false) install_callback (some interval)).alive
            ≡ true)
        × (g.spawned ≢ t)
  zombie_parallel install_callback =
      let k = stop_collector g false in
      let started =
        start_collector-Started k install_callback interval (rw stopped_idle (and_false _)) in
      let fresh : g.spawned ≢ t = λ e. omega (arith, numbered, e) in
      (
        ap (contains t) started.zombies ∙ stopped_zombie,
        ap (contains t) started.alive ∙ (ground (arith, stopped_alive)),
        started.thread ∙ ap some stopped_spawned,
        ap (contains g.spawned) started.alive ∙ (ground (arith, stopped_spawned)),
        fresh,
      )

  -- Where the callback is not registered, a start with it and an interval runs a second collector
  -- thread beside the one at hand; and if that one has not been told to stop, then neither the start nor
  -- a stop behind it tells it to.
  pub start_orphans :
      (ended : Bool)
      → contains gc_callback g.callbacks ≡ false
      → contains t g.stopping ≡ false
      → (contains t (start_collector g true (some interval)).alive ≡ true)
        × (contains g.spawned (start_collector g true (some interval)).alive ≡ true)
        × (contains t (stop_collector (start_collector g true (some interval)) ended).alive ≡ true)
        × (contains t (stop_collector (start_collector g true (some interval)) ended).stopping
            ≡ false)
        × ((stop_collector (start_collector g true (some interval)) ended).thread ≡ none)
        × (g.spawned ≢ t)
  start_orphans ended gone untold =
      let h = start_collector g true (some interval) in
      let started = start_collector-Started g true interval (rw gone refl) in
      let fresh : g.spawned ≢ t = λ e. omega (arith, numbered, e) in
      let other : t ≢ g.spawned = λ e. fresh (sym e) in
      let runs : contains t h.alive ≡ true = ap (contains t) started.alive ∙ (ground (arith, on)) in
      (
        runs,
        ap (contains g.spawned) started.alive ∙ (ground arith),
        other_runs h t g.spawned ended started.thread other runs,
        other_untold h t g.spawned ended started.thread other started.event
            (ap (contains t) started.stopping ∙ untold),
        gone_from_hand h t g.spawned ended started.thread other,
        fresh,
      )
