-- ===== src/Hydration/Tests.antt =====
-- The theorems on a hydration of schema 7 by process 1 into segment 11, whose insertion fails.
use quorin.Base.{◌≡◌, refl, arith, true, false, none, some, contains, [], ◌∷◌, ◌≢◌}
use quorin.Registry.{open_transaction}
use quorin.Registry.Tests.{idle}
use quorin.Hydration.{
  created, unanswered, create_and_insert, Setting, broken, failed, hydrate, check_current,
  load_latest, insert_rows_into,
}
use quorin.Hydration.Failure.{hydrate-Restores, hydrate_opened}

abbrev unlucky : Setting
unlucky = record {
  factor_ok = true;
  consumer_alive = false;
  latest = some 3;
  beat = some (5 ∷ []);
  creation = created;
  others = λ r. r;
  inserted = none;
  redis_ok = true;
}

-- Process 2 opens the segment meanwhile.
abbrev watched : Setting
watched = record unlucky { others = λ r. open_transaction r 2 11 }

insertion_failed : (hydrate unlucky 7 1 11 idle).1 ≡ failed broken
unfolding hydrate check_current load_latest create_and_insert insert_rows_into
insertion_failed = refl

answered : unlucky.creation ≢ unanswered
answered h = cc

hydrate-Restores_example :
    record (hydrate unlucky 7 1 11 idle).0 { heartbeats = idle.heartbeats } ≡ idle
hydrate-Restores_example =
    hydrate-Restores unlucky 7 1 11 (λ r. refl) refl answered idle refl refl refl broken
      insertion_failed

hydrate_opened_example :
    (contains 11 ((hydrate watched 7 1 11 idle).0.pid_segments 2) ≡ true)
    × ((hydrate watched 7 1 11 idle).0.refcount 11 ≡ 0)
hydrate_opened_example =
    hydrate_opened watched 7 1 11 idle 2 2 (omega arith) (λ q. refl) refl refl refl refl refl refl
      refl
