-- ===== src/WalConsumer/Overlap.antt =====
-- The flush of the pause path beside a flush of the flush loop that takes longer.
use quorin.Base.{
  Bool, ℕ, zero, suc, ◌≤◌, ◌≡◌, refl, ◌∙◌, ap, arith, true, List, [], ◌∷◌, ◌++◌, drop, length,
}
use quorin.WalConsumer.Applied.{apply_all-Applied}
use quorin.WalConsumer.Reading.{flush_and_ack}
use quorin.WalConsumer.{
  Message, Consumer, answered, xack, apply_all, process_batch, begin_flush, end_flush, acknowledge,
}

drop_all : (k : ℕ) (xs : List ℕ) → length xs ≤ k → drop k xs ≡ []
drop_all zero [] h = refl
drop_all zero (x ∷ xs) h = absurd (omega arith)
drop_all (suc k) [] h = refl
drop_all (suc k) (x ∷ xs) h = drop_all k xs (omega arith)

append_nil : (xs : List ℕ) → xs ≡ xs ++ []
append_nil [] = refl
append_nil (x ∷ xs) = ap (λ t. x ∷ t) (append_nil xs)

-- The end of a flush that began with a snapshot, on the consumer of its end
abbrev ended_with : Consumer → Consumer → List ℕ → Consumer
ended_with d c snapshot =
    let ended = end_flush d (begin_flush c snapshot) true in
    (acknowledge ended.0 ended.1 answered).0

record Ends (d : Consumer) (snapshot : List ℕ) (e : Consumer) : Type 0 where
  pending : e.pending_ack ≡ drop (length snapshot) d.pending_ack
  processed : e.processed ≡ d.processed
  acked : e.acked ≡ d.acked ++ snapshot

ended_with-Ends : (d c : Consumer) (snapshot : List ℕ) → Ends d snapshot (ended_with d c snapshot)
unfolding begin_flush end_flush acknowledge xack
ended_with-Ends d c [] = record { pending = refl; processed = refl; acked = append_nil d.acked }
ended_with-Ends d c (x ∷ xs) = record { pending = refl; processed = refl; acked = refl }

flush_and_ack-Ends : (c : Consumer) → Ends c c.pending_ack (flush_and_ack c true)
unfolding flush_and_ack
flush_and_ack-Ends c = ended_with-Ends c c c.pending_ack

module _ (hash : List ℕ → ℕ) (known : ℕ → Bool) (accepts : Message → Bool) where
  -- The flush loop begins a flush; the pause path flushes and acknowledges; the read loop goes on with a
  -- batch; the flush of the flush loop succeeds, and is acknowledged.
  abbrev pub overlap : Consumer → List Message → Consumer
  overlap c ms =
      let first = begin_flush c c.pending_ack in
      let after = process_batch hash known accepts (flush_and_ack c true) ms true in
      let ended = end_flush after first true in (acknowledge ended.0 ended.1 answered).0

  -- If a batch applies no more messages than waited for their acknowledgement before it, and is processed
  -- between the flush of the pause path and the end of an overlapping flush of the flush loop:
  -- afterwards no message waits for its acknowledgement, the keys of the batch are set, and the
  -- messages acknowledged are those that waited before the batch.
  pub overlapping_flushes :
      (c : Consumer) (ms : List Message)
      → length (apply_all hash known accepts (flush_and_ack c true) ms).1 ≤ length c.pending_ack
      → ((overlap c ms).pending_ack ≡ [])
        × ((overlap c ms).processed
            ≡ c.processed ++ (apply_all hash known accepts (flush_and_ack c true) ms).1)
        × ((overlap c ms).acked ≡ (c.acked ++ c.pending_ack) ++ c.pending_ack)
  unfolding process_batch
  overlapping_flushes c ms few =
      let waits = c.pending_ack in
      let parked = flush_and_ack c true in
      let ids = (apply_all hash known accepts parked ms).1 in
      let a = apply_all-Applied hash known accepts parked ms in
      let pause = flush_and_ack-Ends c in
      let after = process_batch hash known accepts parked ms true in
      let end = ended_with-Ends after c waits in
      let empty : parked.pending_ack ≡ [] =
        pause.pending ∙ drop_all (length waits) waits (omega arith) in
      (
        end.pending
            ∙ ap (λ t. drop (length waits) (t ++ ids)) (a.pending ∙ empty)
            ∙ drop_all (length waits) ids few,
        end.processed ∙ ap (λ t. t ++ ids) (a.processed ∙ pause.processed),
        end.acked ∙ ap (λ t. t ++ waits) (a.acked ∙ pause.acked),
      )
