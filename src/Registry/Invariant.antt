-- ===== src/Registry/Invariant.antt =====
-- The pointers of the schemas and the clean-up queue, over the transactions.
use quorin.Base.{
  contains, ℕ, zero, suc, ◌<◌, ◌≡◌, refl, arith, Bool, true, false, ◌||◌, some, List, [], ◌∷◌, drop,
  ◌==◌, Bool-cases, ==→eq, inl, inr,
}
use quorin.Registry.{
  Name, Redis, sadd, create_transaction, open_transaction, clear_schema, release, close_script,
  release_all, cleanup_dead_pid, drain_cleanup_queue, flip_schema_current, is_reused,
}

-- Every schema points at a segment that is in use and registered for it, and every segment that
-- waits to be unlinked is in use by no process.
pub record IsRegistry (r : Redis) : Type 0 where
  pub registered : (s n : Name) → r.current s ≡ some n → r.segment_to_schema n ≡ some s
  pub in_use : (s n : Name) → r.current s ≡ some n → 0 < r.refcount n
  pub unused : (n : Name) → contains n r.cleanup_queue ≡ true → r.refcount n ≡ 0

pub contains-sadd :
    (m n : Name) (q : List Name) → contains m (sadd n q) ≡ ((m == n) || contains m q)
unfolding sadd
contains-sadd m n q = elim (Bool-cases (contains n q)) [
  | inl y ↦ elim (Bool-cases (m == n)) [
    | inl e ↦ let same = ==→eq m n e in rw (y, e, same) y
    | inr ne ↦ rw (y, ne) refl
  ]
  | inr fresh ↦ rw fresh refl
]

contains-drop : (m k : ℕ) (q : List Name) → contains m (drop k q) ≡ true → contains m q ≡ true
contains-drop m zero q h = h
contains-drop m (suc k) [] h = h
contains-drop m (suc k) (n ∷ q) h = let rest = contains-drop m k q h in ground arith

module _ (r : Redis) (inv : IsRegistry r) where
  -- A segment with a new name: no counter, not queued
  pub create_transaction-IsRegistry :
      (pid s name : Name) (set_current : Bool)
      → r.refcount name ≡ 0
      → contains name r.cleanup_queue ≡ false
      → IsRegistry (create_transaction r pid s name set_current)
  unfolding create_transaction
  create_transaction-IsRegistry pid s name set_current new calm = record {
    registered =
        λ t n h. let old = inv.registered t n in let alive = inv.in_use t n in ground arith;
    in_use = λ t n h. let alive = inv.in_use t n in ground arith;
    unused = λ n h. let old = inv.unused n in ground arith;
  }

  pub open_transaction-IsRegistry :
      (pid name : Name) → 0 < r.refcount name → IsRegistry (open_transaction r pid name)
  unfolding open_transaction
  open_transaction-IsRegistry pid name used = record {
    registered = inv.registered;
    in_use = λ t n h. let alive = inv.in_use t n in ground arith;
    unused = λ n h. let old = inv.unused n in ground arith;
  }

  pub release-IsRegistry : (name : Name) → IsRegistry (release r name).0
  unfolding release clear_schema
  release-IsRegistry name = record {
    registered =
        λ s n h. let old = inv.registered s n in let mine = inv.registered s name in ground arith;
    in_use = λ s n h. let old = inv.in_use s n in let mine = inv.registered s name in ground arith;
    unused = λ n h.
        let old = inv.unused n in let added = contains-sadd n name r.cleanup_queue in ground arith;
  }

  pub flip_schema_current-IsRegistry :
      (s old_name new_name : Name)
      → r.segment_to_schema new_name ≡ some s
      → 0 < r.refcount new_name
      → IsRegistry (flip_schema_current r s old_name new_name).0
  unfolding flip_schema_current
  flip_schema_current-IsRegistry s old_name new_name mine used = record {
    registered = λ t n h. let old = inv.registered t n in ground arith;
    in_use = λ t n h. let alive = inv.in_use t n in ground arith;
    unused = λ n h. let old = inv.unused n in ground arith;
  }

  pub drain_cleanup_queue-IsRegistry : (max : ℕ) → IsRegistry (drain_cleanup_queue r max).0
  unfolding drain_cleanup_queue
  drain_cleanup_queue-IsRegistry max = record {
    registered = inv.registered;
    in_use = inv.in_use;
    unused = λ n h. inv.unused n (contains-drop n max r.cleanup_queue h);
  }

pub close_script-IsRegistry :
    (r : Redis) → IsRegistry r → (pid name : Name) → IsRegistry (close_script r pid name)
unfolding close_script
close_script-IsRegistry r inv pid name =
    let after = release-IsRegistry r inv name in
    record { registered = after.registered; in_use = after.in_use; unused = after.unused }

release_all-IsRegistry :
    (r : Redis) → IsRegistry r → (names : List Name) → IsRegistry (release_all r names).0
unfolding release_all
release_all-IsRegistry r inv [] = inv
release_all-IsRegistry r inv (name ∷ names) =
    release_all-IsRegistry (release r name).0 (release-IsRegistry r inv name) names

pub cleanup_dead_pid-IsRegistry :
    (r : Redis)
    → IsRegistry r
    → (pid : Name) (created : List ℕ) → IsRegistry (cleanup_dead_pid r pid created).0
unfolding cleanup_dead_pid
cleanup_dead_pid-IsRegistry r inv pid created =
    elim (Bool-cases (is_reused (r.heartbeats pid) created)) [
      | inl y ↦ rw y inv
      | inr n ↦
          let after = release_all-IsRegistry r inv (r.pid_segments pid) in
          rw n
            (record { registered = after.registered; in_use = after.in_use; unused = after.unused })
    ]
