-- ===== src/Watchdog/Safety.antt =====
-- What a whole tick does to a process that runs.
use quorin.Base.{
  ℕ, ◌≡◌, refl, Bool, true, false, Option, List, [], ◌∷◌, contains, take, Bool-cases, inl, inr,
}
use quorin.Registry.{Name, Redis, drain_cleanup_queue}
use quorin.Watchdog.{
  Tracked, Process, running, Unlink, unlinked, already_gone, failed, after_unlink, Tick, reap_all,
  unlink_all, read_heartbeats, ready_for_check, run_one_tick,
}
use quorin.Watchdog.Reaping.{Recorded, Truthful, read_heartbeats-Recorded, Spared, reap_all-Spared}

module _ (p : Name) (ct : ℕ) (held : List Name) where
  after_unlink-Spared :
      (u : Unlink) (next skip raised : Tick × Bool)
      → Spared p ct held next.0
      → Spared p ct held skip.0
      → Spared p ct held raised.0
      → Spared p ct held (after_unlink u next skip raised).0
  after_unlink-Spared unlinked next skip raised a b c = a
  after_unlink-Spared already_gone next skip raised a b c = b
  after_unlink-Spared failed next skip raised a b c = c

  unlink_all-Spared :
      (unlink : Name → Unlink) (t : Tick) (names : List Name)
      → Spared p ct held t
      → Spared p ct held (unlink_all unlink t names).0
  unfolding unlink_all
  unlink_all-Spared unlink t [] s = s
  unlink_all-Spared unlink t (name ∷ names) s =
      let more = record t { unlinked_names = name ∷ t.unlinked_names } in
      after_unlink-Spared (unlink name) (unlink_all unlink more names) (unlink_all unlink t names)
        (t, true)
        (unlink_all-Spared unlink more names
          (record { not_dead = s.not_dead; holds = s.holds; recorded = s.recorded }))
        (unlink_all-Spared unlink t names s) s

module _ (int : List ℕ → Option ℕ) (str : ℕ → List ℕ) (process : Name → Process)
    (unlink : Name → Unlink) (self_pid miss_threshold batch_drain_size : ℕ) where
  abbrev pub tick : Redis → Tracked → List (List ℕ × List ℕ) → Tick × Bool
  tick = run_one_tick int str process unlink self_pid miss_threshold batch_drain_size

  -- However long its heartbeat has stood still, a process that runs, and whose heartbeats and entry show
  -- its create time, is not declared dead by a tick, and the registry keeps all its segments.
  pub run_one_tick_spares :
      (redis : Redis) (tracked : Tracked) (raw : List (List ℕ × List ℕ)) (p : Name) (ct : ℕ)
      → process p ≡ running ct
      → Recorded p ct tracked
      → Truthful int p ct raw
      → (contains p (tick redis tracked raw).0.dead_pids ≡ false)
        × ((tick redis tracked raw).0.redis.pid_segments p ≡ redis.pid_segments p)
  unfolding run_one_tick drain_cleanup_queue
  run_one_tick_spares redis tracked raw p ct runs recorded truth =
      let reading =
        read_heartbeats int self_pid raw
          (record { tracked = tracked; seen_pids = []; malformed_count = 0 }) in
      let begun : Tick = record {
        redis = redis;
        tracked = reading.tracked;
        dead_pids = [];
        segments_unlinked_dead = 0;
        unverifiable_count = 0;
        pid_reuse_aborts = 0;
        unlinked_names = [];
      } in
      let pids = ready_for_check miss_threshold reading.tracked in
      let held = redis.pid_segments p in
      let fair : Spared p ct held begun = record {
        not_dead = refl;
        holds = refl;
        recorded = read_heartbeats-Recorded int p ct self_pid raw _ truth recorded;
      } in
      let reaped = reap_all str process begun pids in
      let spared = reap_all-Spared str process p ct held runs begun pids fair in
      let drained = (drain_cleanup_queue reaped.redis batch_drain_size).0 in
      let last =
        unlink_all-Spared p ct held unlink (record reaped { redis = drained })
          (take batch_drain_size reaped.redis.cleanup_queue)
          (record {
            not_dead = spared.not_dead;
            holds = spared.holds;
            recorded = spared.recorded;
          }) in
      elim (Bool-cases
        (unlink_all unlink (record reaped { redis = drained })
          (take batch_drain_size reaped.redis.cleanup_queue)).1) [
            | inl y ↦ rw y (last.not_dead, last.holds)
            | inr n ↦ rw n (last.not_dead, last.holds)
          ]
