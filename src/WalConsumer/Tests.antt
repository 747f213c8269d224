-- ===== src/WalConsumer/Tests.antt =====
-- The consumer of one schema, number 7, whose segment is new, with one message for it.
use mathlib.Core.List.{flatten}
use quorin.Base.{
  none, length, ◌≤◌, ◌<◌, arith, contains, false, List, ℕ, ◌≡◌, refl, Bool, true, some, [], ◌∷◌,
  ◌==◌,
}
use quorin.Layout.Tests.{toy_hash, toy_hash_u64, small}
use quorin.Segment.Tests.{user, zero_row, started, started-IsSegment}
use quorin.WalConsumer.{
  packed, Message, idle, running, flushed, answered, Consumer, apply, apply_all, begin_flush,
  end_flush, xack, acknowledge, has_room,
}
use quorin.WalConsumer.Backpressure.{applied_at_most}
use quorin.WalConsumer.Overlap.{overlap, overlapping_flushes}
use quorin.WalConsumer.Reading.{
  Group, Iteration, flush_and_ack, run_one_iter, run_iters, above, ended, blocked, drain_batch,
  drain_pel,
}
use quorin.Registry.{create_transaction}
use quorin.Registry.Tests.{created}
use quorin.WalConsumer.Reopening.{Attached, reopen}
use quorin.WalConsumer.Reopening.Unheld.{reopen_unheld}
use quorin.WalConsumer.Reading.Draining.{process_batches, Drains, drain_pel_lem, drain_pel_ends}
use quorin.WalConsumer.Reading.Skipped.{ids, paused_batch_skipped}
use quorin.WalConsumer.Interleaving
use quorin.WalConsumer.Interleaving.{waiting, parking, Loops, Run, IsLoops, Run-IsLoops}
use quorin.WalConsumer.Visible.{AllSegments, Kept, apply-Kept}

abbrev serves : ℕ → Bool
serves s = s == 7

abbrev takes_all : Message → Bool
takes_all m = true

abbrev update : Message
update = record {
  msg_id = 100;
  schema_name = some 7;
  entity_id = some user;
  payload = packed zero_row;
  event_time = some 5;
}

abbrev begun : Consumer
begun = record {
  segments = λ s. record { buf = started; layout = small };
  seen_unknown = [];
  pending_ack = [];
  processed = [];
  acked = [];
  appended = [];
  durable = [];
}

-- The read loop waits for a batch, and no flush runs.
abbrev at_rest : Consumer → Loops
at_rest c = record { consumer = c; reading = waiting; flush_loop = idle }

-- The message 100 waits for its acknowledgement.
abbrev pending_one : Consumer
pending_one = record begun { pending_ack = 100 ∷ []; processed = 100 ∷ []; appended = 100 ∷ [] }

pending_one-IsLoops : IsLoops (at_rest pending_one)
pending_one-IsLoops = record {
  inv = record {
    pending_appended = λ n h. h;
    processed_appended = λ n h. h;
    acked_durable = λ n h. ground arith;
  };
  flushing = tt;
  read = tt;
}

-- Both loops flush it: the read loop parks, and its flush succeeds; then that of the flush loop succeeds,
-- and is acknowledged.
abbrev both_flushed : Loops
both_flushed = record {
  consumer = record pending_one { pending_ack = []; durable = 100 ∷ 100 ∷ []; acked = 100 ∷ [] };
  reading = parking (flushed (100 ∷ []));
  flush_loop = idle;
}

both_flushed-Run : Run toy_hash serves takes_all (at_rest pending_one) both_flushed
unfolding begin_flush end_flush acknowledge xack
both_flushed-Run =
    Interleaving.then_step
      (Interleaving.then_step
        (Interleaving.then_step
          (Interleaving.then_step
            (Interleaving.then_step Interleaving.start (Interleaving.begin refl))
            (Interleaving.park refl))
          (Interleaving.park_flushed (running (100 ∷ []) (100 ∷ [])) true refl))
        (Interleaving.finish true))
      (Interleaving.ack answered)

Run-IsLoops_example : IsLoops both_flushed
Run-IsLoops_example = Run-IsLoops toy_hash serves takes_all pending_one-IsLoops both_flushed-Run

begun-AllSegments : AllSegments toy_hash begun.segments
begun-AllSegments = record { each = λ s. started-IsSegment }

apply-Kept_example :
    Kept toy_hash begun 7 user zero_row (apply toy_hash serves takes_all begun update)
apply-Kept_example =
    apply-Kept toy_hash toy_hash_u64 serves takes_all begun begun-AllSegments update 7 user zero_row
      refl refl refl

begun_room : has_room begun 1 ≡ true
unfolding has_room
begun_room = refl

abbrev later : Message
later = record update { msg_id = 200 }

abbrev two_pending : List Message
two_pending = update ∷ later ∷ []

abbrev never : ℕ → Bool
never id = false

abbrev always : ℕ → Bool
always id = true

-- Two messages wait for their acknowledgement already.
abbrev crowded : Consumer
crowded = record begun { pending_ack = 1 ∷ 2 ∷ [] }

drain_pel_lem_example :
    Drains toy_hash serves takes_all 1 crowded two_pending
      (drain_pel toy_hash serves takes_all 1 1 never always 3 two_pending 0 crowded)
drain_pel_lem_example =
    drain_pel_lem toy_hash serves takes_all 1 never always (λ id. refl) (λ id. refl) 0 3 two_pending
      crowded (omega arith, (omega arith, tt)) (omega arith)

crowded_blocks :
    drain_pel toy_hash serves takes_all 1 1 never always 3 two_pending 0 crowded
    ≡ some (blocked crowded)
unfolding drain_pel drain_batch above has_room
crowded_blocks = refl

drain_pel_ends_example :
    (batches : List (List Message)) × (flatten batches ≡ two_pending)
    × (drain_pel toy_hash serves takes_all 1 1 never always 3 two_pending 0 begun
        ≡ some (ended (process_batches toy_hash serves takes_all begun batches)))
drain_pel_ends_example =
    drain_pel_ends toy_hash serves takes_all 1 never always (λ id. refl) (λ id. refl) 0 3
      two_pending begun (omega arith, (omega arith, tt)) (omega arith) (omega arith)

abbrev parked : Iteration
parked = record {
  deleted = none;
  paused = true;
  flushed = true;
  reopened = begun.segments;
  executed = true;
}

abbrev not_read : Group
not_read = record { delivered = []; undelivered = two_pending }

-- The first message is read in the iteration that finds the pause key, the second in the next.
paused_batch_skipped_example :
    (contains 100
        (ids (run_one_iter toy_hash serves takes_all 1 parked (begun, not_read)).1.delivered)
      ≡ true)
    × (contains 100
          (run_iters toy_hash serves takes_all 1
            (parked ∷ record parked { paused = false } ∷ [])
            (begun, not_read)).0.processed
        ≡ false)
paused_batch_skipped_example =
    paused_batch_skipped toy_hash serves takes_all 1 100 parked
      (record parked { paused = false } ∷ []) begun not_read refl refl (refl, tt) refl refl refl

later_applies :
    length (apply_all toy_hash serves takes_all (flush_and_ack pending_one true) (later ∷ [])).1 ≤ 1
later_applies =
    applied_at_most toy_hash serves takes_all (flush_and_ack pending_one true) (later ∷ [])

overlapping_flushes_example :
    ((overlap toy_hash serves takes_all pending_one (later ∷ [])).pending_ack ≡ [])
    × ((overlap toy_hash serves takes_all pending_one (later ∷ [])).processed
        ≡ 100
          ∷ (apply_all toy_hash serves takes_all (flush_and_ack pending_one true) (later ∷ [])).1)
    × ((overlap toy_hash serves takes_all pending_one (later ∷ [])).acked ≡ 100 ∷ 100 ∷ [])
overlapping_flushes_example =
    overlapping_flushes toy_hash serves takes_all pending_one (later ∷ []) later_applies

-- Process 1 has segment 10 of schema 7 open.
abbrev attached : Attached
attached = record { registry = created; segments = λ s. 10; stopped = false }

points_at_ten : created.current 7 ≡ some 10
unfolding create_transaction
points_at_ten = refl

used_once : 0 < created.refcount 10
unfolding create_transaction
used_once = omega arith

reopen_unheld_example :
    ((reopen (λ n. true) 1 attached 7).segments 7 ≡ 10)
    × ((reopen (λ n. true) 1 attached 7).registry.refcount 10 ≡ created.refcount 10)
    × (contains 10 ((reopen (λ n. true) 1 attached 7).registry.pid_segments 1) ≡ false)
reopen_unheld_example = reopen_unheld (λ n. true) 1 attached 7 10 points_at_ten refl refl used_once
