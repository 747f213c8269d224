-- ===== src/WalConsumer/Reading.antt =====
-- quorin/wal_consumer.py: `_drain_pel`, `_read_new_batch` and `_run_one_iter`. The stream shows as the
-- messages that the group has delivered to this consumer, and those it has not delivered yet.
pub mod Draining
pub mod Skipped
use quorin.Base.{
  ℕ, zero, suc, Bool, true, false, not, Option, none, some, List, [], ◌∷◌, ◌++◌, take, drop, ltb,
  if◌then◌else◌,
}
use quorin.WalConsumer.{
  Message, OpenSegment, Consumer, process_batch, begin_flush, end_flush, acknowledge, answered,
  has_room,
}

pub record Group : Type 0 where
  pub delivered : List Message
  pub undelivered : List Message

-- What an iteration meets: whether a pause key is set, and then whether the flush succeeds, and the
-- segments that are open when the pause is over; else whether the pipeline of SETs goes through
pub record Iteration : Type 0 where
  -- Where the group, or the stream, was deleted: the messages that are in the stream
  pub deleted : Option (List Message)
  pub paused : Bool
  pub flushed : Bool
  pub reopened : ℕ → OpenSegment
  pub executed : Bool

-- `XREADGROUP` with `>`. A group that was deleted is made again, with the whole stream undelivered, and
-- the batch is empty.
unfoldable pub read_new_batch : ℕ → Group → Option (List Message) → List Message × Group
read_new_batch count g none = (
  take count g.undelivered,
  record {
    delivered = g.delivered ++ take count g.undelivered;
    undelivered = drop count g.undelivered;
  },
)
read_new_batch count g (some stream) = ([], record { delivered = []; undelivered = stream })

-- `_flush_and_ack`, without anything between its steps, where the XACK goes through
unfoldable pub flush_and_ack : Consumer → Bool → Consumer
flush_and_ack c success =
    let ended = end_flush c (begin_flush c c.pending_ack) success in
    (acknowledge ended.0 ended.1 answered).0

-- `_check_upgrade_pause_and_reopen`, where a pause key is set
unfoldable pub park_and_reopen : Consumer → Iteration → Consumer
park_and_reopen c i = record (flush_and_ack c i.flushed) { segments = i.reopened }

-- `XREADGROUP` with an id: the delivered messages behind it
unfoldable pub above : ℕ → List Message → List Message
above id [] = []
above id (m ∷ ms) = if ltb id m.msg_id then m ∷ above id ms else above id ms

unfoldable pub last_id : ℕ → List Message → ℕ
last_id id [] = id
last_id id (m ∷ ms) = last_id m.msg_id ms

module _ (hash : List ℕ → ℕ) (known : ℕ → Bool) (accepts : Message → Bool) (count : ℕ) where
  unfoldable pub process_new : Consumer → List Message → Bool → Consumer
  process_new c [] executed = c
  process_new c (m ∷ ms) executed = process_batch hash known accepts c (m ∷ ms) executed

  -- What `_run_one_iter` does with what it has read
  unfoldable pub after_read : Iteration → Consumer → List Message × Group → Consumer × Group
  after_read i c (msgs, g) =
      if i.paused then (park_and_reopen c i, g) else (process_new c msgs i.executed, g)

  unfoldable pub run_one_iter : Iteration → Consumer × Group → Consumer × Group
  run_one_iter i (c, g) = after_read i c (read_new_batch count g i.deleted)

  -- The loop of `run`
  unfoldable pub run_iters : List Iteration → Consumer × Group → Consumer × Group
  run_iters [] state = state
  run_iters (i ∷ is) state = run_iters is (run_one_iter i state)

-- Where the loop of `_drain_pel` is left: at its end, in the wait at the ceiling, which only a stop ends,
-- since no flush runs yet, or with the exception of a pipeline
pub data DrainEnd : Type 0 where
  ended blocked raised : Consumer → DrainEnd

-- `max` is `max_pending_ack`. At an id: whether a stop is asked for, and whether the pipeline of the batch
-- behind it goes through, if it has one.
module _ (hash : List ℕ → ℕ) (known : ℕ → Bool) (accepts : Message → Bool) (count max : ℕ)
    (stopped executes : ℕ → Bool) where
  unfoldable pub drain_batch :
      (ℕ → Consumer → Option DrainEnd) → ℕ → Consumer → List Message → Option DrainEnd
  drain_batch rest id c [] = some (ended c)
  drain_batch rest id c (m ∷ ms) =
      let after = process_batch hash known accepts c (m ∷ ms) (executes id) in
      let further = rest (last_id id (m ∷ ms)) after in
      if not (has_room c max)
      then some (blocked c)
      else (if executes id then further else some (raised after))

  -- The loop over the messages that are pending; `none` where the fuel runs out. Nothing is
  -- acknowledged before it ends.
  unfoldable pub drain_pel : ℕ → List Message → ℕ → Consumer → Option DrainEnd
  drain_pel zero pel id c = none
  drain_pel (suc fuel) pel id c =
      let further = drain_batch (drain_pel fuel pel) id c (take count (above id pel)) in
      if stopped id then some (ended c) else further
