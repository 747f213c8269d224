-- ===== src/Registry/Pointed.antt =====
-- The pointers of the schemas, where the read of a pointer and the transaction of `open_current` are two steps.
use quorin.Base.{ℕ, ◌<◌, ◌≡◌, ◌≢◌, arith, Bool, some, List, [], ◌∷◌, Bool-cases, inl, inr}
use quorin.Registry.{
  Name, Redis, create_transaction, open_transaction, clear_schema, release, close_script,
  release_all, cleanup_dead_pid, drain_cleanup_queue, flip_schema_current, is_reused,
}

-- Every schema points at a segment whose counter is not 0 and that is registered for it.
pub record IsPointed (r : Redis) : Type 0 where
  pub registered : (s n : Name) → r.current s ≡ some n → r.segment_to_schema n ≡ some s
  pub in_use : (s n : Name) → r.current s ≡ some n → 0 < r.refcount n

module _ (r : Redis) (inv : IsPointed r) where
  -- A segment at which no schema points
  pub create_transaction-IsPointed :
      (pid s name : Name) (set_current : Bool)
      → ((t : Name) → r.current t ≢ some name)
      → IsPointed (create_transaction r pid s name set_current)
  unfolding create_transaction
  create_transaction-IsPointed pid s name set_current new = record {
    registered = λ t n h. let old = inv.registered t n in let apart = new t in ground arith;
    in_use = λ t n h. let alive = inv.in_use t n in ground arith;
  }

  pub open_transaction-IsPointed : (pid name : Name) → IsPointed (open_transaction r pid name)
  unfolding open_transaction
  open_transaction-IsPointed pid name = record {
    registered = inv.registered;
    in_use = λ t n h. let alive = inv.in_use t n in ground arith;
  }

  pub release-IsPointed : (name : Name) → IsPointed (release r name).0
  unfolding release clear_schema
  release-IsPointed name = record {
    registered =
        λ s n h. let old = inv.registered s n in let mine = inv.registered s name in ground arith;
    in_use = λ s n h. let old = inv.in_use s n in let mine = inv.registered s name in ground arith;
  }

  pub flip_schema_current-IsPointed :
      (s old_name new_name : Name)
      → r.segment_to_schema new_name ≡ some s
      → 0 < r.refcount new_name
      → IsPointed (flip_schema_current r s old_name new_name).0
  unfolding flip_schema_current
  flip_schema_current-IsPointed s old_name new_name mine used = record {
    registered = λ t n h. let old = inv.registered t n in ground arith;
    in_use = λ t n h. let alive = inv.in_use t n in ground arith;
  }

  pub drain_cleanup_queue-IsPointed : (max : ℕ) → IsPointed (drain_cleanup_queue r max).0
  unfolding drain_cleanup_queue
  drain_cleanup_queue-IsPointed max = record { registered = inv.registered; in_use = inv.in_use }

pub close_script-IsPointed :
    (r : Redis) → IsPointed r → (pid name : Name) → IsPointed (close_script r pid name)
unfolding close_script
close_script-IsPointed r inv pid name =
    let after = release-IsPointed r inv name in
    record { registered = after.registered; in_use = after.in_use }

release_all-IsPointed :
    (r : Redis) → IsPointed r → (names : List Name) → IsPointed (release_all r names).0
unfolding release_all
release_all-IsPointed r inv [] = inv
release_all-IsPointed r inv (name ∷ names) =
    release_all-IsPointed (release r name).0 (release-IsPointed r inv name) names

pub cleanup_dead_pid-IsPointed :
    (r : Redis)
    → IsPointed r
    → (pid : Name) (created : List ℕ) → IsPointed (cleanup_dead_pid r pid created).0
unfolding cleanup_dead_pid
cleanup_dead_pid-IsPointed r inv pid created =
    elim (Bool-cases (is_reused (r.heartbeats pid) created)) [
      | inl y ↦ rw y inv
      | inr n ↦
          let after = release_all-IsPointed r inv (r.pid_segments pid) in
          rw n (record { registered = after.registered; in_use = after.in_use })
    ]
