-- ===== src/GcManager/Invariant.antt =====
-- The threads of the manager, its callback, and what was told to stop.
use quorin.Base.{
  ℕ, ◌<◌, ◌≡◌, refl, sym, ◌∙◌, ap, arith, Bool, true, false, not, ◌&&◌, ◌||◌, Option, none, some,
  List, [], ◌∷◌, contains, contains-append, ◌⊎◌, inl, inr, Bool-cases, Option-cases,
}
use native.Mathlib.Decide.{ℕ_discrete}
use quorin.GcManager.{
  Manager, gc_callback, remove, is_none, is_timer_running, install, start_timer, start_collector,
  set_event, join_thread, release, clear_pauses, stop_collector, thread_exit, Phase, begin, finish,
  observe_pause, on_collection, reset_after_fork,
}

-- The callback is registered once at most, the thread goes with its event and with the callback,
-- and every thread that runs is the one at hand or has been told to stop, as has every zombie.
pub record IsManager (g : Manager) : Type 0 where
  pub once : contains gc_callback (remove gc_callback g.callbacks) ≡ false
  pub event : g.stop_event ≡ g.thread
  pub installed : (t : ℕ) → g.thread ≡ some t → contains gc_callback g.callbacks ≡ true
  pub numbered : (t : ℕ) → contains t g.alive ≡ true → t < g.spawned
  pub told :
      (t : ℕ) → contains t g.alive ≡ true → (g.thread ≡ some t) ⊎ (contains t g.stopping ≡ true)
  pub zombies_told : (t : ℕ) → contains t g.zombies ≡ true → contains t g.stopping ≡ true

contains-remove : (t n : ℕ) (xs : List ℕ) → contains t (remove n xs) ≡ true → contains t xs ≡ true
unfolding remove
contains-remove t n [] h = h
contains-remove t n (x ∷ xs) h = ground (arith, contains-remove t n xs)

absent-remove : (t n : ℕ) (xs : List ℕ) → contains t xs ≡ false → contains t (remove n xs) ≡ false
absent-remove t n xs h = elim (Bool-cases (contains t (remove n xs))) [
  | inl y ↦ let z = contains-remove t n xs y in cc
  | inr k ↦ k
]

removed_once :
    (n : ℕ) (xs : List ℕ)
    → contains n (remove n xs) ≡ false
    → contains n (remove n (remove n xs)) ≡ false
removed_once n xs h = absent-remove n n (remove n xs) h

absent-once : (n : ℕ) (xs : List ℕ) → contains n xs ≡ false → contains n (remove n (n ∷ xs)) ≡ false
unfolding remove
absent-once n xs h = ground arith

install-callbacks : (g : Manager) → contains gc_callback (install g).callbacks ≡ true
unfolding install
install-callbacks g = ground arith

install-IsManager : (g : Manager) → IsManager g → IsManager (install g)
unfolding install
install-IsManager g inv = record {
  once = elim (Bool-cases (contains gc_callback g.callbacks)) [
    | inl there ↦ rw there inv.once
    | inr gone ↦ rw gone (absent-once gc_callback g.callbacks gone)
  ];
  event = inv.event;
  installed = λ t h. unfold install in install-callbacks g;
  numbered = inv.numbered;
  told = inv.told;
  zombies_told = inv.zombies_told;
}

running_of :
    (g : Manager) (t : ℕ)
    → g.thread ≡ some t
    → contains t g.alive ≡ true
    → is_timer_running g ≡ true
unfolding is_timer_running
running_of g t e h = rw e h

start_timer-IsManager :
    (g : Manager) (interval : Option ℕ)
    → IsManager g
    → contains gc_callback g.callbacks ≡ true
    → is_none interval || not (is_timer_running g) ≡ true
    → IsManager (start_timer g interval)
unfolding start_timer is_timer_running
start_timer-IsManager g none inv there free = inv
start_timer-IsManager g (some i) inv there free = record {
  once = inv.once;
  event = refl;
  installed = λ t h. there;
  numbered = λ t h. ground (arith, inv.numbered t);
  told = λ t h. elim (ℕ_discrete t g.spawned) [
    | yes e ↦ inl (ap some (sym e))
    | no ne ↦ elim (inv.told t (ground arith)) [
      | inl current ↦ let running = running_of g t current (ground arith) in cc
      | inr out ↦ inr out
    ]
  ];
  zombies_told = inv.zombies_told;
}

install-timer : (g : Manager) → is_timer_running (install g) ≡ is_timer_running g
unfolding install is_timer_running
install-timer g = refl

timer_free :
    (there n r : Bool)
    → (there ≡ false → r ≡ false)
    → (there && (n || r)) ≡ false
    → (n || not r) ≡ true
timer_free true true r idle h = refl
timer_free true false true idle h = cc
timer_free true false false idle h = refl
timer_free false n true idle h = let e = idle refl in cc
timer_free false true false idle h = refl
timer_free false false false idle h = refl

-- Without the callback there is no thread.
idle_without :
    (g : Manager)
    → IsManager g
    → contains gc_callback g.callbacks ≡ false
    → is_timer_running g ≡ false
unfolding is_timer_running
idle_without g inv gone = elim (Option-cases g.thread) [
  | inl none_there ↦ rw none_there refl
  | inr (t, e) ↦ let there = inv.installed t e in cc
]

pub start_collector-IsManager :
    (g : Manager) (interval : Option ℕ) → IsManager g → IsManager (start_collector g true interval)
unfolding start_collector install
start_collector-IsManager g interval inv =
    let running = is_timer_running g in
    let there = contains gc_callback g.callbacks in
    elim (Bool-cases (there && (is_none interval || running))) [
      | inl done ↦ rw done inv
      | inr more ↦ rw more (
          start_timer-IsManager (install g) interval (install-IsManager g inv) (install-callbacks g)
            (ap (λ b. is_none interval || not b) (install-timer g)
              ∙ timer_free there (is_none interval) running (idle_without g inv) more))
    ]

set_event-contains :
    (e : Option ℕ) (stopping : List ℕ) (t : ℕ)
    → contains t stopping ≡ true
    → contains t (set_event e stopping) ≡ true
unfolding set_event
set_event-contains none stopping t h = h
set_event-contains (some e) stopping t h = ground arith

released_told :
    (g : Manager)
    → IsManager g
    → (t : ℕ) → g.thread ≡ some t
    → contains t (release g).stopping ≡ true
unfolding release set_event
released_told g inv t e = rw (inv.event ∙ e) (ground arith)

-- The callback goes, and with it the thread, whose event is set.
release-IsManager : (g : Manager) → IsManager g → IsManager (release g)
unfolding release set_event
release-IsManager g inv = record {
  once = removed_once gc_callback g.callbacks inv.once;
  event = refl;
  installed = λ t h. cc;
  numbered = inv.numbered;
  told = λ t h. elim (inv.told t h) [
    | inl current ↦ inr (rw (inv.event ∙ current) (ground arith))
    | inr out ↦ inr (set_event-contains g.stop_event g.stopping t out)
  ];
  zombies_told = λ t h. set_event-contains g.stop_event g.stopping t (inv.zombies_told t h);
}

-- A thread that was told to stop ends in time, or is a zombie.
join_thread-IsManager :
    (g : Manager) (thread : Option ℕ) (ended : Bool)
    → IsManager g
    → ((t : ℕ) → thread ≡ some t → contains t g.stopping ≡ true)
    → IsManager (join_thread g thread ended)
unfolding join_thread
join_thread-IsManager g none ended inv out = inv
join_thread-IsManager g (some t) true inv out = record {
  once = inv.once;
  event = inv.event;
  installed = inv.installed;
  numbered = λ u h. inv.numbered u (contains-remove u t g.alive h);
  told = λ u h. inv.told u (contains-remove u t g.alive h);
  zombies_told = inv.zombies_told;
}
join_thread-IsManager g (some t) false inv out = elim (Bool-cases (contains t g.alive)) [
  | inl on ↦ rw on record {
    once = inv.once;
    event = inv.event;
    installed = inv.installed;
    numbered = inv.numbered;
    told = inv.told;
    zombies_told =
        λ u h. ground (arith, contains-append u g.zombies (t ∷ []), inv.zombies_told u, out t refl);
  }
  | inr off ↦ rw off inv
]

clear_pauses-IsManager : (g : Manager) → IsManager g → IsManager (clear_pauses g)
unfolding clear_pauses
clear_pauses-IsManager g inv = record {
  once = inv.once;
  event = inv.event;
  installed = inv.installed;
  numbered = inv.numbered;
  told = inv.told;
  zombies_told = inv.zombies_told;
}

pub stop_collector-IsManager :
    (g : Manager) (ended : Bool) → IsManager g → IsManager (stop_collector g ended)
unfolding stop_collector
stop_collector-IsManager g ended inv =
    elim (Bool-cases (not (contains gc_callback g.callbacks) && is_none g.thread)) [
      | inl idle ↦ rw idle inv
      | inr busy ↦ rw busy (
          clear_pauses-IsManager (join_thread (release g) g.thread ended) (
            join_thread-IsManager (release g) g.thread ended (release-IsManager g inv)
              (released_told g inv)))
    ]

pub thread_exit-IsManager : (g : Manager) (t : ℕ) → IsManager g → IsManager (thread_exit g t)
unfolding thread_exit
thread_exit-IsManager g t inv = elim (Bool-cases (contains t g.stopping)) [
  | inl out ↦ rw out record {
    once = inv.once;
    event = inv.event;
    installed = inv.installed;
    numbered = λ u h. inv.numbered u (contains-remove u t g.alive h);
    told = λ u h. inv.told u (contains-remove u t g.alive h);
    zombies_told = inv.zombies_told;
  }
  | inr on ↦ rw on inv
]

-- A collection changes nothing of this.
pub on_collection-IsManager :
    (g : Manager) (phase : Phase) (gen : Option ℕ) (now : ℕ)
    → IsManager g
    → IsManager (on_collection g phase gen now)
unfolding on_collection observe_pause
on_collection-IsManager g begin none now inv = inv
on_collection-IsManager g finish none now inv = inv
on_collection-IsManager g begin (some gen) now inv = record {
  once = inv.once;
  event = inv.event;
  installed = inv.installed;
  numbered = inv.numbered;
  told = inv.told;
  zombies_told = inv.zombies_told;
}
on_collection-IsManager g finish (some gen) now inv = elim (Option-cases (g.pause_starts gen)) [
  | inl unknown ↦ rw unknown inv
  | inr (t0, known) ↦ rw known record {
    once = inv.once;
    event = inv.event;
    installed = inv.installed;
    numbered = inv.numbered;
    told = inv.told;
    zombies_told = inv.zombies_told;
  }
]

pub reset_after_fork-IsManager : (g : Manager) → IsManager g → IsManager (reset_after_fork g)
unfolding reset_after_fork
reset_after_fork-IsManager g inv = record {
  once = removed_once gc_callback g.callbacks inv.once;
  event = refl;
  installed = λ t h. cc;
  numbered = λ t h. cc;
  told = λ t h. cc;
  zombies_told = λ t h. cc;
}
