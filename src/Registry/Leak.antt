-- ===== src/Registry/Leak.antt =====
-- A process that holds a segment twice.
use quorin.Base.{contains, is_set, ℕ, ◌≡◌, refl, arith, true, false, List, [], ==_self}
use quorin.Registry.{
  Name, Redis, sadd, create_transaction, open_transaction, is_reused, cleanup_dead_pid,
}
use quorin.Registry.Invariant.{contains-sadd}
use quorin.Registry.Holders.{is_set-sadd}
use quorin.Registry.Cleanup.{cleanup_dead_pid_lem}

-- `create`, and then `open_current` in the same process
abbrev pub reopened : Redis → Name → Name → Name → Redis
reopened r pid schema name = open_transaction (create_transaction r pid schema name true) pid name

module _ (r : Redis) (pid schema name : Name) where
  reopened-refcount : (reopened r pid schema name).refcount name ≡ 2
  unfolding create_transaction open_transaction
  reopened-refcount = rw (==_self name) refl

  reopened_held :
      (contains name ((reopened r pid schema name).pid_segments pid) ≡ true)
      × (is_set (r.pid_segments pid) ≡ true
          → is_set ((reopened r pid schema name).pid_segments pid) ≡ true)
  unfolding create_transaction open_transaction
  reopened_held =
      let held = r.pid_segments pid in
      let once = contains-sadd name name held in
      let twice = contains-sadd name name (sadd name held) in
      (
        rw (==_self pid) (ground arith),
        λ set. rw (==_self pid) (is_set-sadd name (sadd name held) (is_set-sadd name held set)),
      )

  -- A process that creates a segment, opens it once more and dies: after its clean-up the counter is
  -- still 1, the process holds nothing, and the segment is not queued for removal.
  pub reopened_leak :
      (created : List ℕ)
      → is_set (r.pid_segments pid) ≡ true
      → is_reused (r.heartbeats pid) created ≡ false
      → contains name r.cleanup_queue ≡ false
      → ((cleanup_dead_pid (reopened r pid schema name) pid created).0.refcount name ≡ 1)
        × ((cleanup_dead_pid (reopened r pid schema name) pid created).0.pid_segments pid ≡ [])
        × (contains name (cleanup_dead_pid (reopened r pid schema name) pid created).0.cleanup_queue
            ≡ false)
  reopened_leak created set fresh calm =
      let opened = reopened r pid schema name in
      let (held, distinct) = reopened_held in
      let same : opened.heartbeats pid ≡ r.heartbeats pid =
        unfold create_transaction open_transaction in refl in
      let queue : contains name opened.cleanup_queue ≡ false =
        unfold create_transaction open_transaction in calm in
      let (after, run, keys) =
        cleanup_dead_pid_lem opened pid created (distinct set) (rw same fresh) in
      let count = keys.refcount name in
      let queued = keys.queue name in
      let two = reopened-refcount in rw run (ground arith, keys.held, ground arith)
