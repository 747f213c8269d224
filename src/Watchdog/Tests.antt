-- ===== src/Watchdog/Tests.antt =====
-- The watchdog theorems with process 1 as the watchdog, and process 2, whose number is written "2".
use quorin.Base.{
  ℕ, ◌+◌, ◌-◌, ◌≡◌, refl, sym, ap, false, Option, none, some, List, [], ◌∷◌, contains,
}
use quorin.Registry.{Name, before_colon}
use quorin.Registry.Tests.{busy}
use quorin.Watchdog.{Tracked, Heartbeat, Process, running, unlinked, parse_heartbeat, after_colon}
use quorin.Watchdog.Reaping.{Truthful}
use quorin.Watchdog.Safety.{tick, run_one_tick_spares}

-- A stand-in for `int` and `str` on one digit
abbrev digit : List ℕ → Option ℕ
digit [] = none
digit (c ∷ cs) = some (c - b'0')

abbrev text : ℕ → List ℕ
text n = (n + b'0') ∷ []

abbrev seen : Tracked
seen = (2, record { last_wall_time = 9; create_time = 5; miss_count = 3 }) ∷ []

abbrev beat : Heartbeat
beat = record { pid = 2; create_time = 5; wall_time = 9 }

abbrev alive_at_five : Name → Process
alive_at_five p = running 5

-- The heartbeat "2": "5:9"
abbrev raw_beat : List (List ℕ × List ℕ)
raw_beat = (b'2' ∷ [], b'5' ∷ b':' ∷ b'9' ∷ []) ∷ []

raw_beat-Truthful : Truthful digit 2 5 raw_beat
unfolding parse_heartbeat before_colon after_colon
raw_beat-Truthful =
    (λ h e y. let same : beat ≡ h = cc in ap (λ (b : Heartbeat). b.create_time) (sym same), tt)

run_one_tick_spares_example :
    (contains 2
        (tick digit text alive_at_five (λ n. unlinked) 1 3 64 busy seen raw_beat).0.dead_pids
      ≡ false)
    × ((tick digit text alive_at_five
            (λ n. unlinked)
            1
            3
            64
            busy
            seen
            raw_beat).0.redis.pid_segments
          2
        ≡ busy.pid_segments 2)
run_one_tick_spares_example =
    run_one_tick_spares digit text alive_at_five (λ n. unlinked) 1 3 64 busy seen raw_beat 2 5 refl
      ((λ h. refl), tt) raw_beat-Truthful
