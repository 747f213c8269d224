-- ===== src/Registry/Late.antt =====
-- A close between the read of the pointer and the transaction of an `open_current`.
use quorin.Base.{contains, ◌≡◌, arith, true}
use quorin.Registry.{Name, Redis, open_transaction, close_script, release}
use quorin.Registry.Invariant.{contains-sadd}

-- If the last user of a segment closes it while another process has read its name, and not counted itself
-- yet: after the transaction of the open, the segment is queued to be unlinked, its counter is 1, and
-- it is in the set of the process that opened it.
pub close-open_current :
    (r : Redis) (closing opening name : Name)
    → r.refcount name ≡ 1
    → (contains name (open_transaction (close_script r closing name) opening name).cleanup_queue
        ≡ true)
      × ((open_transaction (close_script r closing name) opening name).refcount name ≡ 1)
      × (contains name
            ((open_transaction (close_script r closing name) opening name).pid_segments opening)
          ≡ true)
unfolding open_transaction close_script release
close-open_current r closing opening name last =
    let queued = contains-sadd name name r.cleanup_queue in
    let held = contains-sadd name name ((close_script r closing name).pid_segments opening) in
    (ground arith, ground arith, ground arith)
