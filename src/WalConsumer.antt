-- ===== src/WalConsumer.antt =====
-- quorin/wal_consumer.py: how `WALConsumer` applies messages, and acknowledges them after the flush.
-- A message id, and the name of a schema, is a number. Decoding the fields and packing the row is
-- msgpack, struct and row_pack.py, and is given with the message; the offline writer is a parameter.
pub mod Applied
pub mod Acknowledge
pub mod Interleaving
pub mod Overlap
pub mod Visible
pub mod Backpressure
pub mod Reading
pub mod Reopening
mod Tests
use quorin.Base.{
  ℕ, zero, suc, ◌+◌, ◌*◌, ◌≡◌, Bool, true, false, ◌||◌, Option, none, some, List, [], ◌∷◌, ◌++◌,
  drop, ltb, leb, ◌==◌, contains, length, if◌then◌else◌,
}
use quorin.Result.{Result, ok, err}
use quorin.Memory.{Memory}
use quorin.Layout.{SegmentLayout}
use quorin.Segment.{insert}

-- What unpacking the blob and `pack_row_from_list` come to: a row, one of the three exceptions of a
-- message that does not fit the schema, or another exception
pub data Payload : Type 0 where
  packed : List ℕ → Payload
  poison_pill broken : Payload

pub record Message : Type 0 where
  pub msg_id : ℕ
  pub schema_name : Option ℕ
  -- `none` where the bytes are not UTF-8
  pub entity_id : Option (List ℕ)
  pub payload : Payload
  pub event_time : Option ℕ

pub record OpenSegment : Type 0 where
  pub buf : Memory
  pub layout : SegmentLayout

-- How far a call of `_flush_and_ack` is: it has the snapshot of `pending_ack`, with what had been
-- appended when it began, or, after `offline.flush()` returned, the snapshot waits for its XACK
pub data Flushing : Type 0 where
  idle : Flushing
  running : List ℕ → List ℕ → Flushing
  flushed : List ℕ → Flushing

-- The XACK returns, or it raises: before Redis has run it, or after
pub data Xack : Type 0 where
  answered refused unanswered : Xack

pub record Consumer : Type 0 where
  pub segments : ℕ → OpenSegment
  pub seen_unknown : List ℕ
  pub pending_ack : List ℕ
  -- The keys `quorin:processed:{id}`, and the messages acknowledged with XACK
  pub processed : List ℕ
  pub acked : List ℕ
  -- What the offline writer took, and what it has made durable
  pub appended : List ℕ
  pub durable : List ℕ

abbrev pub unknown_schema_cap : ℕ
unknown_schema_cap = 1024

-- `_seen_unknown`, which stops growing at the cap
unfoldable pub note_unknown : List ℕ → ℕ → List ℕ
note_unknown seen name =
    if leb unknown_schema_cap (length seen) || contains name seen then seen else name ∷ seen

abbrev pub set_segment : (ℕ → OpenSegment) → ℕ → Memory → ℕ → OpenSegment
set_segment segments s buf x = if x == s then record (segments s) { buf = buf } else segments x

-- The SETs of the pipeline of a batch
abbrev pub set_keys : Consumer → List ℕ → Consumer
set_keys c ids = record c { processed = c.processed ++ ids }

-- `self._pending_ack.extend(applied)`
abbrev pub extend_pending : Consumer → List ℕ → Consumer
extend_pending c ids = record c { pending_ack = c.pending_ack ++ ids }

-- `hash` is `hash_entity_id`, `known` the schemas of the consumer, and `accepts` whether
-- `offline.append` takes a message or raises.
module _ (hash : List ℕ → ℕ) (known : ℕ → Bool) (accepts : Message → Bool) where
  -- `int(fields[_F_EVENT_TIME])` and the append
  unfoldable pub append_offline : Consumer → Message → Option ℕ → Consumer × Bool
  append_offline c m none = (c, false)
  append_offline c m (some time) =
      if accepts m then (record c { appended = m.msg_id ∷ c.appended }, true) else (c, false)

  unfoldable pub apply_inserted : Consumer → Message → ℕ → Result (Bool × Memory) → Consumer × Bool
  apply_inserted c m s (err e) = (c, false)
  apply_inserted c m s (ok r) =
      append_offline (record c { segments = set_segment c.segments s r.1 }) m m.event_time

  unfoldable pub apply_payload : Consumer → Message → ℕ → List ℕ → Payload → Consumer × Bool
  apply_payload c m s id poison_pill = (c, false)
  apply_payload c m s id broken = (c, false)
  apply_payload c m s id (packed row) =
      apply_inserted c m s (insert hash (c.segments s).buf (c.segments s).layout id row)

  unfoldable pub apply_entity : Consumer → Message → ℕ → Option (List ℕ) → Consumer × Bool
  apply_entity c m s none = (c, false)
  apply_entity c m s (some id) = apply_payload c m s id m.payload

  unfoldable pub apply_schema : Consumer → Message → Option ℕ → Consumer × Bool
  apply_schema c m none = (c, false)
  apply_schema c m (some s) =
      if known s
      then apply_entity c m s m.entity_id
      else (record c { seen_unknown = note_unknown c.seen_unknown s }, false)

  -- `_apply`
  unfoldable pub apply : Consumer → Message → Consumer × Bool
  apply c m = apply_schema c m m.schema_name

  -- The loop of `_process_batch`, with the ids that were applied
  unfoldable pub apply_all : Consumer → List Message → Consumer × List ℕ
  apply_all c [] = (c, [])
  apply_all c (m ∷ ms) =
      let (after, done) = apply c m in
      let (last, applied) = apply_all after ms in
      (last, if done then m.msg_id ∷ applied else applied)

  -- `_process_batch` behind the wait at the ceiling; `executed` tells whether the pipeline of SETs went
  -- through.
  unfoldable pub process_batch : Consumer → List Message → Bool → Consumer
  process_batch c ms executed =
      let (after, applied) = apply_all c ms in
      if executed then extend_pending (set_keys after applied) applied else after

-- `_flush_and_ack`, up to the await of `offline.flush()`: the snapshot is a copy of `pending_ack`.
unfoldable pub begin_flush : Consumer → List ℕ → Flushing
begin_flush c [] = idle
begin_flush c (x ∷ xs) = running (x ∷ xs) c.appended

-- The flush returned, or raised
unfoldable pub end_flush : Consumer → Flushing → Bool → Consumer × Flushing
end_flush c idle success = (c, idle)
end_flush c (running snapshot covered) success =
    if success then (record c { durable = covered ++ c.durable }, flushed snapshot) else (c, idle)
end_flush c (flushed snapshot) success = (c, flushed snapshot)

-- The XACK of the snapshot, whose length is then taken off the front of `pending_ack`. Where the XACK
-- raises, the call of `_flush_and_ack` ends.
unfoldable pub xack : Consumer → List ℕ → Xack → Consumer
xack c snapshot answered = record c {
  acked = c.acked ++ snapshot;
  pending_ack = drop (length snapshot) c.pending_ack;
}
xack c snapshot refused = c
xack c snapshot unanswered = record c { acked = c.acked ++ snapshot }

unfoldable pub acknowledge : Consumer → Flushing → Xack → Consumer × Flushing
acknowledge c idle reply = (c, idle)
acknowledge c (running snapshot covered) reply = (c, running snapshot covered)
acknowledge c (flushed snapshot) reply = (xack c snapshot reply, idle)

-- The test of the ceiling in `_process_batch`, which waits while it fails
unfoldable pub has_room : Consumer → ℕ → Bool
has_room c max_pending_ack = ltb (length c.pending_ack) (2 * max_pending_ack)
