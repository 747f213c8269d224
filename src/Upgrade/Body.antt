-- ===== src/Upgrade/Body.antt =====
-- The stages of the work of an upgrade, one by one.
use quorin.Base.{ℕ, ◌≡◌, refl, arith, false, Option, none, some, Bool-cases, inl, inr}
use quorin.Registry.{
  Name, Redis, is_name, create_transaction, open_transaction, Flip, flipped, mismatch, missing,
  flip_schema_current,
}
use quorin.Registry.Pointed.{
  IsPointed, create_transaction-IsPointed, open_transaction-IsPointed, close_script-IsPointed,
  flip_schema_current-IsPointed,
}
use quorin.Upgrade.{
  counting, count_read, count_old, pausing, opening, rereading, creating, copying, flipping,
  unpausing, attaching, closing, Attempt, Progress, going, raised, Environment, stage, set_pause,
  open_found, open_old, reread, create_new, copy_rows, after_flip, flip, clear_pause, close_old,
  with_old, go_on, upgrade_body,
}
use quorin.Upgrade.Stages.{
  Polite, Sound, After, next-After, fresh-Sound, made-Sound, live-Sound, others-StartsFresh,
  others-HasMade, others-IsLive, stage-After, StartsFresh, HasMade, IsLive,
}

module _ (env : Environment) (s pid new token : ℕ) (polite : Polite env new) where
  set_pause-After :
      (a : Attempt)
      → (StartsFresh env s pid new token polite) a
      → After new (StartsFresh env s pid new token polite) (set_pause env s pid new token a)
  unfolding set_pause
  set_pause-After a h = h

  open_found-After :
      (a : Attempt) (found : Option Name)
      → a.world.registry.current s ≡ found
      → (StartsFresh env s pid new token polite) a
      → After new (StartsFresh env s pid new token polite) (open_found env s pid new token a found)
  unfolding open_found
  open_found-After a none e h = (fresh-Sound env s pid new token polite) a h
  open_found-After a (some old) e h = h

  count_read-After :
      (a : Attempt) (found : Option Name)
      → (StartsFresh env s pid new token polite) a
      → After new (StartsFresh env s pid new token polite) (count_read env s pid new token a found)
  unfolding count_read
  count_read-After a none h = h
  count_read-After a (some old) (f, none_yet, unflipped) = (
    record {
      inv = open_transaction-IsPointed a.world.registry f.inv pid old;
      unpointed = unfold open_transaction in f.unpointed;
    },
    none_yet,
    unflipped,
  )

  count_old-After :
      (a : Attempt)
      → (StartsFresh env s pid new token polite) a
      → After new (StartsFresh env s pid new token polite) (count_old env s pid new token a)
  unfolding count_old
  count_old-After a h = count_read-After a a.read_name h

  open_old-After :
      (a : Attempt)
      → (StartsFresh env s pid new token polite) a
      → After new (StartsFresh env s pid new token polite) (open_old env s pid new token a)
  unfolding open_old
  open_old-After a h = open_found-After a (a.world.registry.current s) refl h

  reread-After :
      (old : Name) (a : Attempt)
      → (StartsFresh env s pid new token polite) a
      → After new (StartsFresh env s pid new token polite) (reread env s pid new token old a)
  unfolding reread
  reread-After old a h = elim (Bool-cases (is_name (a.world.registry.current s) old)) [
    | inl y ↦ rw y h
    | inr n ↦ rw n ((fresh-Sound env s pid new token polite) a h)
  ]

  create_new-After :
      (a : Attempt)
      → (StartsFresh env s pid new token polite) a
      → After new (HasMade env s pid new token polite) (create_new env s pid new token a)
  unfolding create_new create_transaction
  create_new-After a (f, none_yet, unflipped) = (
    record {
      inv = create_transaction-IsPointed a.world.registry f.inv pid s new false f.unpointed;
      used = ground arith;
      mine = ground arith;
      unpointed = f.unpointed;
    },
    refl,
    unflipped,
  )

  copy_rows-After :
      (a : Attempt)
      → (HasMade env s pid new token polite) a
      → After new (HasMade env s pid new token polite) (copy_rows env s pid new token a)
  unfolding copy_rows
  copy_rows-After a h = elim (Bool-cases env.counts_match) [
    | inl y ↦ rw y h
    | inr n ↦ rw n ((made-Sound env s pid new token polite) a h)
  ]

  after_flip-After :
      (a : Attempt) (p : Redis × Flip)
      → (HasMade env s pid new token polite) a
      → IsPointed p.0
      → After new (IsLive env s pid new token polite) (after_flip env s pid new token a p)
  unfolding after_flip
  after_flip-After a (r, flipped) h inv = (inv, refl)
  after_flip-After a (r, mismatch) h inv = (made-Sound env s pid new token polite) a h
  after_flip-After a (r, missing) h inv = (made-Sound env s pid new token polite) a h

  flip-After :
      (old : Name) (a : Attempt)
      → (HasMade env s pid new token polite) a
      → After new (IsLive env s pid new token polite) (flip env s pid new token old a)
  unfolding flip
  flip-After old a h =
      let m = h.0 in
      after_flip-After a (flip_schema_current a.world.registry s old new) h
        (flip_schema_current-IsPointed a.world.registry m.inv s old new m.mine m.used)

  clear_pause-After :
      (a : Attempt)
      → (IsLive env s pid new token polite) a
      → After new (IsLive env s pid new token polite) (clear_pause env s pid new token a)
  unfolding clear_pause
  clear_pause-After a h = elim (Bool-cases env.unpause_works) [ inl y ↦ rw y h | inr n ↦ rw n h ]

  close_old-After :
      (old : Name) (a : Attempt)
      → (IsLive env s pid new token polite) a
      → After new (IsLive env s pid new token polite) (close_old env s pid new token old a)
  unfolding close_old
  close_old-After old a (inv, flipped_e) =
      (close_script-IsPointed a.world.registry inv pid old, flipped_e)

  closing-After :
      (old : Name) (a : Attempt)
      → (IsLive env s pid new token polite) a
      → After new
          (IsLive env s pid new token polite)
          (stage env s pid new token closing (close_old env s pid new token old) a)
  closing-After old a h =
      (stage-After env s pid new token polite) (IsLive env s pid new token polite)
        (IsLive env s pid new token polite) closing (close_old env s pid new token old) a
        ((others-IsLive env s pid new token polite) closing) (live-Sound env s pid new token polite)
        (close_old-After old) h

  with_old-After :
      (old : Name) (a : Attempt)
      → (StartsFresh env s pid new token polite) a
      → After new (IsLive env s pid new token polite) (with_old env s pid new token old a)
  unfolding with_old
  with_old-After old a h =
      next-After new (StartsFresh env s pid new token polite) (IsLive env s pid new token polite) _
        _
        ((stage-After env s pid new token polite) (StartsFresh env s pid new token polite)
          (StartsFresh env s pid new token polite) rereading (reread env s pid new token old) a
          ((others-StartsFresh env s pid new token polite) rereading)
          (fresh-Sound env s pid new token polite) (reread-After old) h)
        (λ a h.
          next-After new (HasMade env s pid new token polite) (IsLive env s pid new token polite) _
            _
            ((stage-After env s pid new token polite) (StartsFresh env s pid new token polite)
              (HasMade env s pid new token polite) creating (create_new env s pid new token) a
              ((others-StartsFresh env s pid new token polite) creating)
              (fresh-Sound env s pid new token polite) create_new-After h)
            (λ a h.
              next-After new (HasMade env s pid new token polite)
                (IsLive env s pid new token polite) _ _
                ((stage-After env s pid new token polite) (HasMade env s pid new token polite)
                  (HasMade env s pid new token polite) copying (copy_rows env s pid new token) a
                  ((others-HasMade env s pid new token polite) copying)
                  (made-Sound env s pid new token polite) copy_rows-After h)
                (λ a h.
                  next-After new (IsLive env s pid new token polite)
                    (IsLive env s pid new token polite) _ _
                    ((stage-After env s pid new token polite) (HasMade env s pid new token polite)
                      (IsLive env s pid new token polite) flipping (flip env s pid new token old) a
                      ((others-HasMade env s pid new token polite) flipping)
                      (made-Sound env s pid new token polite) (flip-After old) h)
                    (λ a h.
                      next-After new (IsLive env s pid new token polite)
                        (IsLive env s pid new token polite) _ _
                        ((stage-After env s pid new token polite)
                          (IsLive env s pid new token polite) (IsLive env s pid new token polite)
                          unpausing (clear_pause env s pid new token) a
                          ((others-IsLive env s pid new token polite) unpausing)
                          (live-Sound env s pid new token polite) clear_pause-After h)
                        (λ a h.
                          next-After new (IsLive env s pid new token polite)
                            (IsLive env s pid new token polite) _ _
                            ((stage-After env s pid new token polite)
                              (IsLive env s pid new token polite)
                              (IsLive env s pid new token polite) attaching going a
                              ((others-IsLive env s pid new token polite) attaching)
                              (live-Sound env s pid new token polite) (λ b k. k) h)
                            (closing-After old))))))

  live-After :
      (p : Progress) → After new (IsLive env s pid new token polite) p → After new (Sound new) p
  live-After (going a) h = (live-Sound env s pid new token polite) a h
  live-After (raised a e) h = h

  go_on-After :
      (found : Option Name) (a : Attempt)
      → (StartsFresh env s pid new token polite) a
      → After new (Sound new) (go_on env s pid new token found a)
  unfolding go_on
  go_on-After none a h = (fresh-Sound env s pid new token polite) a h
  go_on-After (some old) a h =
      live-After (with_old env s pid new token old a) (with_old-After old a h)

  pub upgrade_body-After :
      (a : Attempt)
      → (StartsFresh env s pid new token polite) a
      → After new (Sound new) (upgrade_body env s pid new token a)
  unfolding upgrade_body
  upgrade_body-After a h =
      next-After new (StartsFresh env s pid new token polite) (Sound new) _ _
        ((stage-After env s pid new token polite) (StartsFresh env s pid new token polite)
          (StartsFresh env s pid new token polite) pausing (set_pause env s pid new token) a
          ((others-StartsFresh env s pid new token polite) pausing)
          (fresh-Sound env s pid new token polite) set_pause-After h)
        (λ a h.
          next-After new (StartsFresh env s pid new token polite) (Sound new) _ _
            ((stage-After env s pid new token polite) (StartsFresh env s pid new token polite)
              (StartsFresh env s pid new token polite) opening (open_old env s pid new token) a
              ((others-StartsFresh env s pid new token polite) opening)
              (fresh-Sound env s pid new token polite) open_old-After h)
            (λ a h.
              next-After new (StartsFresh env s pid new token polite) (Sound new) _ _
                ((stage-After env s pid new token polite) (StartsFresh env s pid new token polite)
                  (StartsFresh env s pid new token polite) counting (count_old env s pid new token)
                  a ((others-StartsFresh env s pid new token polite) counting)
                  (fresh-Sound env s pid new token polite) count_old-After h)
                (λ a h. go_on-After a.old_seg a h)))
