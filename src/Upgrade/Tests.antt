-- ===== src/Upgrade/Tests.antt =====
-- The theorems on an upgrade by process 1 of schema 7 from segment 10 to segment 11, with token 5.
use quorin.Base.{arith, ◌≡◌, refl, true, false, none}
use quorin.Registry.{Redis, create_transaction}
use quorin.Registry.Pointed.{IsPointed, create_transaction-IsPointed}
use quorin.Registry.Tests.{idle}
use quorin.Upgrade.{attaching, Environment, World, upgrade_schema}
use quorin.Upgrade.Stages.{Polite, Fresh}
use quorin.Upgrade.Sound.{upgrade_schema-IsPointed}
use quorin.Upgrade.Locks.{upgrade_schema_lock}

abbrev alone : Environment
alone = record {
  others = λ k r. r;
  fails = λ k. false;
  counts_match = true;
  orphan_cleaned = true;
  old_close_works = true;
  release_works = true;
  unpause_works = true;
  same_name = true;
  factor_ok = true;
  compatible = true;
  pending = 0;
  liveness_raises = false;
  consumer_alive = false;
}

-- The wait for readers is interrupted.
abbrev interrupted : Environment
interrupted = record alone { fails = λ k. elim k [ attaching ↦ true | _ ↦ false ] }

abbrev old : Redis
old = create_transaction idle 1 7 10 true

abbrev start : World
start = record { registry = old; lock = λ s. none; pause = λ s. none }

interrupted-Polite : Polite interrupted 11
interrupted-Polite = record {
  keeps = λ k r inv. inv;
  used = λ k r h. h;
  schema_of = λ k r. refl;
  pointers = λ k r h. h;
}

old-Fresh : Fresh 11 old
unfolding create_transaction
old-Fresh = record {
  inv =
      create_transaction-IsPointed idle
        (record { registered = λ t n h. ground arith; in_use = λ t n h. ground arith }) 1 7 10 true
        (λ t. ground arith);
  unpointed = λ t. ground arith;
}

upgrade_schema-IsPointed_example :
    IsPointed (upgrade_schema interrupted 7 1 11 5 start false).0.registry
upgrade_schema-IsPointed_example =
    upgrade_schema-IsPointed interrupted 7 1 11 5 interrupted-Polite start false old-Fresh

upgrade_schema_lock_example : (upgrade_schema interrupted 7 1 11 5 start false).0.lock ≡ start.lock
upgrade_schema_lock_example = upgrade_schema_lock interrupted 7 1 11 5 refl start false refl
