-- ===== src/Hydration/Failure.antt =====
-- What a hydration that fails leaves behind.
use quorin.Base.{
  ℕ, zero, suc, ◌≡◌, ◌≢◌, refl, sym, ◌∙◌, ap, ap₂, true, false, ◌||◌, not, Option, none, some, ◌==◌,
  contains, ==_self, ne→==, if_both, if_yes, if_no,
}
use quorin.Registry.{Name, Redis, set_at, sadd, srem, create_transaction, open_transaction}
use quorin.Registry.Invariant.{contains-sadd}
use quorin.Registry.Maps.{set_at_back, srem-sadd}
use quorin.Hydration.{
  Creation, refused, created, unanswered, ensure_started, create_and_insert, HydrationError,
  Hydrated, failed, Setting, force_drop_orphan, insert_rows_into, load_latest, check_current,
  hydrate,
}

-- Creating a segment and dropping it
dropped-created :
    (r : Redis) (pid s new : Name)
    → r.current s ≡ none
    → r.refcount new ≡ 0
    → contains new (r.pid_segments pid) ≡ false
    → r.segment_to_schema new ≡ none
    → force_drop_orphan (create_transaction r pid s new true) pid s new ≡ r
unfolding force_drop_orphan create_transaction
dropped-created r pid s new free unused unheld unknown =
    let made = set_at r.pid_segments pid (sadd new (r.pid_segments pid)) in
    let held : r.pid_segments pid ≡ srem new (made pid) = sym (
      ap (srem new) (if_yes (pid == pid) _ _ (==_self pid))
      ∙ srem-sadd new (r.pid_segments pid) unheld) in
    ap₂
      (λ c n. record {
        current = c;
        refcount = n;
        pid_segments = set_at made pid (srem new (made pid));
        heartbeats = r.heartbeats;
        cleanup_queue = r.cleanup_queue;
        segment_to_schema = set_at (set_at r.segment_to_schema new (some s)) new none;
      })
      (set_at_back r.current s (some new) none free) (set_at_back r.refcount new 1 0 unused)
    ∙ ap₂
        (λ p t. record {
          current = r.current;
          refcount = r.refcount;
          pid_segments = p;
          heartbeats = r.heartbeats;
          cleanup_queue = r.cleanup_queue;
          segment_to_schema = t;
        })
        (set_at_back r.pid_segments pid (sadd new (r.pid_segments pid)) (srem new (made pid)) held)
        (set_at_back r.segment_to_schema new (some s) none unknown)

still_held :
    (q : Redis) (pid s new reader : ℕ)
    → reader ≢ pid
    → contains new
        ((force_drop_orphan (open_transaction q reader new) pid s new).pid_segments reader)
      ≡ true
unfolding force_drop_orphan open_transaction
still_held q pid s new reader other =
    rw (ne→== reader pid other, ==_self reader)
      (contains-sadd new new (q.pid_segments reader)
        ∙ ap (λ b. b || contains new (q.pid_segments reader)) (==_self new))

dropped_counter : (q : Redis) (pid s new : ℕ) → (force_drop_orphan q pid s new).refcount new ≡ 0
unfolding force_drop_orphan
dropped_counter q pid s new = rw (==_self new) refl

module _ (env : Setting) (s pid new : ℕ) where
  -- A failure leaves the registry as it was, but for the heartbeats.
  abbrev Restores : Redis → Redis × Hydrated → Type 0
  Restores r result =
      (e : HydrationError) → result.1 ≡ failed e → record result.0 { heartbeats = r.heartbeats } ≡ r

  module _ (alone : (r : Redis) → env.others r ≡ r) (drops : env.redis_ok ≡ true)
      (answered : env.creation ≢ unanswered) where
    dropped-started :
        (r : Redis)
        → r.current s ≡ none
        → r.refcount new ≡ 0
        → contains new (r.pid_segments pid) ≡ false
        → r.segment_to_schema new ≡ none
        → record (force_drop_orphan
            (create_transaction (ensure_started r pid env.beat) pid s new true)
            pid
            s
            new) { heartbeats = r.heartbeats }
          ≡ r
    unfolding ensure_started
    dropped-started r free unused unheld unknown =
        ap (λ (q : Redis). record q { heartbeats = r.heartbeats })
          (dropped-created (ensure_started r pid env.beat) pid s new free unused unheld unknown)

    insert_rows_into-Restores :
        (r : Redis) (inserted : Option ℕ)
        → r.current s ≡ none
        → r.refcount new ≡ 0
        → contains new (r.pid_segments pid) ≡ false
        → r.segment_to_schema new ≡ none
        → Restores r (
            insert_rows_into env s pid new
              (env.others (create_transaction (ensure_started r pid env.beat) pid s new true))
              inserted)
    unfolding insert_rows_into
    insert_rows_into-Restores r (some n) free unused unheld unknown e h = cc
    insert_rows_into-Restores r none free unused unheld unknown e h =
        let made = create_transaction (ensure_started r pid env.beat) pid s new true in
        ap (λ (q : Redis). record q { heartbeats = r.heartbeats })
          (if_yes env.redis_ok _ _ drops ∙ ap (λ q. force_drop_orphan q pid s new) (alone made))
        ∙ dropped-started r free unused unheld unknown

    create_and_insert-Restores :
        (r : Redis) (creation : Creation)
        → env.creation ≡ creation
        → r.current s ≡ none
        → r.refcount new ≡ 0
        → contains new (r.pid_segments pid) ≡ false
        → r.segment_to_schema new ≡ none
        → Restores r (create_and_insert env s pid new (ensure_started r pid env.beat) creation)
    unfolding create_and_insert ensure_started
    create_and_insert-Restores r refused same free unused unheld unknown = λ e h. refl
    create_and_insert-Restores r created same free unused unheld unknown =
        insert_rows_into-Restores r env.inserted free unused unheld unknown
    create_and_insert-Restores r unanswered same free unused unheld unknown = absurd (answered same)

    load_latest-Restores :
        (r : Redis) (latest : Option ℕ)
        → r.current s ≡ none
        → r.refcount new ≡ 0
        → contains new (r.pid_segments pid) ≡ false
        → r.segment_to_schema new ≡ none
        → Restores r (load_latest env s pid new r latest)
    unfolding load_latest
    load_latest-Restores r none free unused unheld unknown = λ e h. refl
    load_latest-Restores r (some zero) free unused unheld unknown = λ e h. refl
    load_latest-Restores r (some (suc n)) free unused unheld unknown =
        create_and_insert-Restores r env.creation refl free unused unheld unknown

    check_current-Restores :
        (r : Redis) (found : Option Name)
        → r.current s ≡ found
        → r.refcount new ≡ 0
        → contains new (r.pid_segments pid) ≡ false
        → r.segment_to_schema new ≡ none
        → Restores r (check_current env s pid new r found)
    unfolding check_current
    check_current-Restores r (some name) free unused unheld unknown = λ e h. refl
    check_current-Restores r none free unused unheld unknown =
        if_both (Restores r) env.consumer_alive _ _ (λ e h. refl)
          (load_latest-Restores r env.latest free unused unheld unknown)

    -- If nothing else happens during the hydration, the name of the new segment is unknown, the clean-up
    -- reaches Redis, and create does not raise after its transaction has run: a hydration that fails
    -- leaves the pointers, the counters, the sets of the processes, the queue and the side table as
    -- they were.
    pub hydrate-Restores :
        (r : Redis)
        → r.refcount new ≡ 0
        → contains new (r.pid_segments pid) ≡ false
        → r.segment_to_schema new ≡ none
        → (e : HydrationError) → (hydrate env s pid new r).1 ≡ failed e
        → record (hydrate env s pid new r).0 { heartbeats = r.heartbeats } ≡ r
    unfolding hydrate
    hydrate-Restores r unused unheld unknown =
        if_both (Restores r) (not env.factor_ok) _ _ (λ e h. refl)
          (check_current-Restores r (r.current s) refl unused unheld unknown)

  -- If another process opens the new segment before the insertion fails: after the clean-up, the segment
  -- is in the set of this process, and its counter is gone.
  pub hydrate_opened :
      (r : Redis) (reader n : ℕ)
      → reader ≢ pid
      → ((q : Redis) → env.others q ≡ open_transaction q reader new)
      → env.factor_ok ≡ true
      → r.current s ≡ none
      → env.consumer_alive ≡ false
      → env.latest ≡ some (suc n)
      → env.creation ≡ created
      → env.inserted ≡ none
      → env.redis_ok ≡ true
      → (contains new ((hydrate env s pid new r).0.pid_segments reader) ≡ true)
        × ((hydrate env s pid new r).0.refcount new ≡ 0)
  unfolding hydrate check_current load_latest create_and_insert insert_rows_into
  hydrate_opened r reader n other opens factor free stopped rows creating raises drops =
      let made = create_transaction (ensure_started r pid env.beat) pid s new true in
      let opened = open_transaction made reader new in
      let end : (hydrate env s pid new r).0 ≡ force_drop_orphan opened pid s new =
        ap (λ (x : Redis × Hydrated). x.0)
          (if_no (not env.factor_ok) _ _ (ap not factor)
            ∙ ap (check_current env s pid new r) free
            ∙ if_no env.consumer_alive _ _ stopped
            ∙ ap (load_latest env s pid new r) rows
            ∙ ap (create_and_insert env s pid new (ensure_started r pid env.beat)) creating
            ∙ ap₂ (insert_rows_into env s pid new) (opens made) raises)
        ∙ if_yes env.redis_ok _ _ drops in
      (
        ap (λ (q : Redis). contains new (q.pid_segments reader)) end
            ∙ still_held made pid s new reader other,
        ap (λ (q : Redis). q.refcount new) end ∙ dropped_counter opened pid s new,
      )
