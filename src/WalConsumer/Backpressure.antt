-- ===== src/WalConsumer/Backpressure.antt =====
-- The ceiling on messages that wait for their acknowledgement, and on unknown schema names.
use quorin.Base.{
  ℕ, ◌+◌, ◌*◌, ◌≤◌, ◌<◌, ◌≡◌, arith, Bool, true, List, [], ◌∷◌, length, length-append, Bool-cases,
  inl, inr,
}
use quorin.WalConsumer.{
  Message, Consumer, apply, apply_all, process_batch, has_room, note_unknown, unknown_schema_cap,
}
use quorin.WalConsumer.Applied.{apply_all-Applied}

module _ (hash : List ℕ → ℕ) (known : ℕ → Bool) (accepts : Message → Bool) where
  pub applied_at_most :
      (c : Consumer) (ms : List Message) → length (apply_all hash known accepts c ms).1 ≤ length ms
  unfolding apply_all
  applied_at_most c [] = omega arith
  applied_at_most c (m ∷ ms) =
      let rest = applied_at_most (apply hash known accepts c m).0 ms in ground arith

  pub process_batch_growth :
      (c : Consumer) (ms : List Message) (executed : Bool)
      → length (process_batch hash known accepts c ms executed).pending_ack
        ≤ length c.pending_ack + length ms
  unfolding process_batch
  process_batch_growth c ms executed =
      let d = (apply_all hash known accepts c ms).0 in
      let ids = (apply_all hash known accepts c ms).1 in
      let same = (apply_all-Applied hash known accepts c ms).pending in
      let few = applied_at_most c ms in
      let sum = length-append c.pending_ack ids in
      elim (Bool-cases executed) [
        | inl y ↦ rw (y, same) (ground (arith, sum, few))
        | inr n ↦ rw (n, same) (ground arith)
      ]

  -- A batch that passes the test of the ceiling leaves fewer than 2 * max_pending_ack messages, and as
  -- many more as the batch has, waiting for their acknowledgement, whatever becomes of each message.
  pub process_batch-length :
      (c : Consumer) (ms : List Message) (executed : Bool) (max_pending_ack : ℕ)
      → has_room c max_pending_ack ≡ true
      → length (process_batch hash known accepts c ms executed).pending_ack
        < 2 * max_pending_ack + length ms
  unfolding has_room
  process_batch-length c ms executed max_pending_ack room =
      let few = process_batch_growth c ms executed in ground (arith, room, few)

-- Whatever names the messages carry, the consumer remembers at most 1024 unknown ones.
pub note_unknown_bound :
    (seen : List ℕ) (name : ℕ)
    → length seen ≤ unknown_schema_cap
    → length (note_unknown seen name) ≤ unknown_schema_cap
unfolding note_unknown
note_unknown_bound seen name h = ground arith
