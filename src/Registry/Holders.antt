-- ===== src/Registry/Holders.antt =====
-- The counter of a segment against the processes that hold it.
use quorin.Base.{
  contains, is_set, ℕ, ◌+◌, ◌-◌, ◌<◌, ◌≡◌, refl, ◌∙◌, arith, Bool, true, false, ◌&&◌, not, List, [],
  ◌∷◌, ◌==◌, Bool-cases, inl, inr,
}
use quorin.Registry.{
  Name, Redis, set_at, sadd, srem, create_transaction, open_transaction, clear_schema, release,
  close_script, release_all, cleanup_dead_pid, is_reused,
}
use quorin.Registry.Invariant.{contains-sadd}

abbrev pub one_if : Bool → ℕ
one_if true = 1
one_if false = 0

-- How many of the processes hold the segment
unfoldable pub holders : List Name → (Name → List Name) → Name → ℕ
holders [] held n = 0
holders (p ∷ ps) held n = one_if (contains n (held p)) + holders ps held n

holders_apart :
    (ps : List Name) (held : Name → List Name) (p : Name) (v : List Name) (n : Name)
    → contains p ps ≡ false
    → holders ps (set_at held p v) n ≡ holders ps held n
unfolding holders
holders_apart [] held p v n h = refl
holders_apart (q ∷ ps) held p v n h = let rest = holders_apart ps held p v n in ground arith

holders-set_at :
    (ps : List Name) (held : Name → List Name) (p : Name) (v : List Name) (n : Name)
    → is_set ps ≡ true
    → contains p ps ≡ true
    → holders ps (set_at held p v) n + one_if (contains n (held p))
      ≡ holders ps held n + one_if (contains n v)
unfolding holders
holders-set_at [] held p v n u h = cc
holders-set_at (q ∷ ps) held p v n u h =
    let rest = holders-set_at ps held p v n in
    let apart = holders_apart ps held p v n in ground arith

contains-srem :
    (m n : Name) (q : List Name) → contains m (srem n q) ≡ (contains m q && not (m == n))
unfolding srem
contains-srem m n [] = refl
contains-srem m n (k ∷ q) = let rest = contains-srem m n q in ground arith

holders_pos :
    (ps : List Name) (held : Name → List Name) (p n : Name)
    → contains p ps ≡ true
    → contains n (held p) ≡ true
    → 0 < holders ps held n
unfolding holders
holders_pos [] held p n h k = cc
holders_pos (q ∷ ps) held p n h k = let rest = holders_pos ps held p n in ground arith

pub is_set-sadd : (n : Name) (q : List Name) → is_set q ≡ true → is_set (sadd n q) ≡ true
unfolding sadd
is_set-sadd n q h = ground arith

is_set-srem : (n : Name) (q : List Name) → is_set q ≡ true → is_set (srem n q) ≡ true
unfolding srem
is_set-srem n [] h = refl
is_set-srem n (k ∷ q) h =
    let rest = is_set-srem n q in let gone = contains-srem k n q in ground arith

-- The counter of each segment is the number of the processes that hold it.
pub record IsCounted (ps : List Name) (r : Redis) : Type 0 where
  pub counted : (n : Name) → r.refcount n ≡ holders ps r.pid_segments n
  pub sets : (p : Name) → is_set (r.pid_segments p) ≡ true

pub release-refcount :
    (r : Redis) (name n : Name)
    → ((release r name).0).refcount n ≡ r.refcount n - one_if (n == name)
unfolding release clear_schema
release-refcount r name n = ground arith

release-pid_segments :
    (r : Redis) (name : Name) → ((release r name).0).pid_segments ≡ r.pid_segments
unfolding release clear_schema
release-pid_segments r name = ground arith

pub release_all-refcount :
    (r : Redis) (names : List Name) (n : Name)
    → is_set names ≡ true
    → ((release_all r names).0).refcount n ≡ r.refcount n - one_if (contains n names)
unfolding release_all
release_all-refcount r [] n h = omega arith
release_all-refcount r (name ∷ names) n h =
    let rest = release_all-refcount (release r name).0 names n in
    let first = release-refcount r name n in ground arith

pub release_all-pid_segments :
    (r : Redis) (names : List Name) → ((release_all r names).0).pid_segments ≡ r.pid_segments
unfolding release_all
release_all-pid_segments r [] = refl
release_all-pid_segments r (name ∷ names) =
    release_all-pid_segments (release r name).0 names ∙ release-pid_segments r name

module _ (ps : List Name) (distinct : is_set ps ≡ true) (r : Redis) (inv : IsCounted ps r) where
  pub create_transaction-IsCounted :
      (p s name : Name) (set_current : Bool)
      → contains p ps ≡ true
      → r.refcount name ≡ 0
      → IsCounted ps (create_transaction r p s name set_current)
  unfolding create_transaction
  create_transaction-IsCounted p s name set_current known new = record {
    counted = λ n.
        let old = inv.counted n in
        let held = r.pid_segments in
        let moved = holders-set_at ps held p (sadd name (held p)) n distinct known in
        let added = contains-sadd n name (held p) in
        let member = holders_pos ps held p n known in ground arith;
    sets = λ q.
        let set = is_set-sadd name (r.pid_segments p) (inv.sets p) in
        let old = inv.sets q in ground arith;
  }

  -- A process opens a segment that it does not hold yet.
  pub open_transaction-IsCounted :
      (p name : Name)
      → contains p ps ≡ true
      → contains name (r.pid_segments p) ≡ false
      → IsCounted ps (open_transaction r p name)
  unfolding open_transaction
  open_transaction-IsCounted p name known free = record {
    counted = λ n.
        let old = inv.counted n in
        let held = r.pid_segments in
        let moved = holders-set_at ps held p (sadd name (held p)) n distinct known in
        let added = contains-sadd n name (held p) in ground arith;
    sets = λ q.
        let set = is_set-sadd name (r.pid_segments p) (inv.sets p) in
        let old = inv.sets q in ground arith;
  }

  -- A process closes a segment that it holds.
  pub close_script-IsCounted :
      (p name : Name)
      → contains p ps ≡ true
      → contains name (r.pid_segments p) ≡ true
      → IsCounted ps (close_script r p name)
  unfolding close_script
  close_script-IsCounted p name known mine =
      let held = r.pid_segments in
      let same = release-pid_segments r name in
      record {
        counted = λ n.
            let old = inv.counted n in
            let down = release-refcount r name n in
            let moved = holders-set_at ps held p (srem name (held p)) n distinct known in
            let removed = contains-srem n name (held p) in rw same (ground arith);
        sets = λ q.
            let set = is_set-srem name (held p) (inv.sets p) in
            let old = inv.sets q in rw same (ground arith);
      }

  pub cleanup_dead_pid-IsCounted :
      (p : Name) (created : List ℕ)
      → contains p ps ≡ true
      → IsCounted ps (cleanup_dead_pid r p created).0
  unfolding cleanup_dead_pid
  cleanup_dead_pid-IsCounted p created known =
      elim (Bool-cases (is_reused (r.heartbeats p) created)) [
        | inl y ↦ rw y inv
        | inr n ↦
            let held = r.pid_segments in
            let same = release_all-pid_segments r (held p) in
            rw n (record {
              counted = λ n.
                  let old = inv.counted n in
                  let down = release_all-refcount r (held p) n (inv.sets p) in
                  let moved = holders-set_at ps held p [] n distinct known in
                  rw same (ground arith);
              sets = λ q. let old = inv.sets q in rw same (ground arith);
            })
      ]
