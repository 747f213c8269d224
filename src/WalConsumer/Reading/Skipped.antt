-- ===== src/WalConsumer/Reading/Skipped.antt =====
-- The messages that an iteration reads and skips.
use quorin.Base.{
  ℕ, zero, suc, ◌≡◌, refl, sym, subst, ◌∙◌, ap, ap₂, arith, Bool, true, false, ◌||◌, none, All,
  List, [], ◌∷◌, ◌++◌, take, drop, contains, contains-append, if_both, if_yes,
}
use quorin.WalConsumer.{
  answered, xack, Message, Consumer, Flushing, idle, running, flushed, apply, apply_all,
  process_batch, begin_flush, end_flush, acknowledge,
}
use quorin.WalConsumer.Applied.{apply_all-Applied}
use quorin.WalConsumer.Reading.{
  Group, Iteration, read_new_batch, after_read, flush_and_ack, park_and_reopen, process_new,
  run_one_iter, run_iters,
}

abbrev pub ids : List Message → List ℕ
ids [] = []
ids (m ∷ ms) = m.msg_id ∷ ids ms

abbrev pub GroupExists : Iteration → Type 0
GroupExists i = i.deleted ≡ none

abbrev Lacks : ℕ → List ℕ → Type 0
Lacks n xs = contains n xs ≡ false

take-Lacks : (n k : ℕ) (ms : List Message) → Lacks n (ids ms) → Lacks n (ids (take k ms))
take-Lacks n zero ms h = refl
take-Lacks n (suc k) [] h = refl
take-Lacks n (suc k) (m ∷ ms) h = ground (arith, take-Lacks n k ms)

drop-Lacks : (n k : ℕ) (ms : List Message) → Lacks n (ids ms) → Lacks n (ids (drop k ms))
drop-Lacks n zero ms h = h
drop-Lacks n (suc k) [] h = refl
drop-Lacks n (suc k) (m ∷ ms) h = drop-Lacks n k ms (ground arith)

ids-append : (xs ys : List Message) → ids (xs ++ ys) ≡ ids xs ++ ids ys
ids-append [] ys = refl
ids-append (x ∷ xs) ys = ap (λ t. x.msg_id ∷ t) (ids-append xs ys)

-- A flush changes no processed key.
end_flush-processed :
    (c : Consumer) (f : Flushing) (success : Bool)
    → (end_flush c f success).0.processed ≡ c.processed
unfolding end_flush
end_flush-processed c idle success = refl
end_flush-processed c (running snapshot covered) true = refl
end_flush-processed c (running snapshot covered) false = refl
end_flush-processed c (flushed snapshot) success = refl

acknowledge-processed :
    (c : Consumer) (f : Flushing) → (acknowledge c f answered).0.processed ≡ c.processed
unfolding acknowledge xack
acknowledge-processed c idle = refl
acknowledge-processed c (running snapshot covered) = refl
acknowledge-processed c (flushed snapshot) = refl

park_and_reopen-processed :
    (c : Consumer) (i : Iteration) → (park_and_reopen c i).processed ≡ c.processed
unfolding park_and_reopen flush_and_ack
park_and_reopen-processed c i =
    let begun = begin_flush c c.pending_ack in
    let ended = end_flush c begun i.flushed in
    acknowledge-processed ended.0 ended.1 ∙ end_flush-processed c begun i.flushed

module _ (hash : List ℕ → ℕ) (known : ℕ → Bool) (accepts : Message → Bool) (count : ℕ) where
  applied-Lacks :
      (n : ℕ) (c : Consumer) (ms : List Message)
      → Lacks n (ids ms)
      → Lacks n (apply_all hash known accepts c ms).1
  unfolding apply_all
  applied-Lacks n c [] h = refl
  applied-Lacks n c (m ∷ ms) h =
      let rest = applied-Lacks n (apply hash known accepts c m).0 ms (ground arith) in
      if_both (Lacks n) (apply hash known accepts c m).1 _ _ (ground arith) rest

  process_batch-Lacks :
      (n : ℕ) (c : Consumer) (ms : List Message) (executed : Bool)
      → Lacks n c.processed
      → Lacks n (ids ms)
      → Lacks n (process_batch hash known accepts c ms executed).processed
  unfolding process_batch
  process_batch-Lacks n c ms executed old new =
      let done = apply_all hash known accepts c ms in
      let kept : Lacks n done.0.processed =
        ap (contains n) (apply_all-Applied hash known accepts c ms).processed ∙ old in
      if_both (λ (d : Consumer). Lacks n d.processed) executed _ _
        (contains-append n done.0.processed done.1 ∙ ap₂ ◌||◌ kept (applied-Lacks n c ms new)) kept

  process_new-Lacks :
      (n : ℕ) (c : Consumer) (ms : List Message) (executed : Bool)
      → Lacks n c.processed
      → Lacks n (ids ms)
      → Lacks n (process_new hash known accepts count c ms executed).processed
  unfolding process_new
  process_new-Lacks n c [] executed old new = old
  process_new-Lacks n c (m ∷ ms) executed old new =
      process_batch-Lacks n c (m ∷ ms) executed old new

  -- The message is neither processed nor will it be delivered.
  abbrev Stuck : ℕ → Consumer × Group → Type 0
  Stuck n state = Lacks n state.0.processed × Lacks n (ids state.1.undelivered)

  run_one_iter-Stuck :
      (n : ℕ) (i : Iteration) (state : Consumer × Group)
      → i.deleted ≡ none
      → Stuck n state
      → Stuck n (run_one_iter hash known accepts count i state)
  unfolding run_one_iter read_new_batch after_read
  run_one_iter-Stuck n i (c, g) there (old, later) =
      subst (λ o. Stuck n (after_read hash known accepts count i c (read_new_batch count g o)))
        (sym there)
        (if_both (Stuck n) i.paused _ _
          (
            ap (contains n) (park_and_reopen-processed c i) ∙ old,
            drop-Lacks n count g.undelivered later,
          )
          (
            process_new-Lacks n c (take count g.undelivered) i.executed old
                (take-Lacks n count g.undelivered later),
            drop-Lacks n count g.undelivered later,
          ))

  run_iters-Stuck :
      (n : ℕ) (is : List Iteration) (state : Consumer × Group)
      → All GroupExists is
      → Stuck n state
      → Stuck n (run_iters hash known accepts count is state)
  unfolding run_iters
  run_iters-Stuck n [] state there stuck = stuck
  run_iters-Stuck n (i ∷ is) state there stuck =
      run_iters-Stuck n is (run_one_iter hash known accepts count i state) there.1
        (run_one_iter-Stuck n i state there.0 stuck)

  -- The batch of an iteration that finds a pause key set, while the group exists, is delivered, and
  -- skipped: after it, and after any further iterations in which nobody deletes the group, no processed
  -- key is set for a message of the batch that had none, and whose id no other message of the stream
  -- has.
  pub paused_batch_skipped :
      (n : ℕ) (i : Iteration) (is : List Iteration) (c : Consumer) (g : Group)
      → i.paused ≡ true
      → i.deleted ≡ none
      → All GroupExists is
      → contains n (ids (take count g.undelivered)) ≡ true
      → contains n (ids (drop count g.undelivered)) ≡ false
      → contains n c.processed ≡ false
      → (contains n (ids (run_one_iter hash known accepts count i (c, g)).1.delivered) ≡ true)
        × (contains n (run_iters hash known accepts count (i ∷ is) (c, g)).0.processed ≡ false)
  unfolding run_iters run_one_iter read_new_batch after_read
  paused_batch_skipped n i is c g paused there all_there read once old =
      let after : Group = record {
        delivered = g.delivered ++ take count g.undelivered;
        undelivered = drop count g.undelivered;
      } in
      let skipped : run_one_iter hash known accepts count i (c, g) ≡ (park_and_reopen c i, after) =
        ap (λ o. after_read hash known accepts count i c (read_new_batch count g o)) there
        ∙ if_yes i.paused (park_and_reopen c i, after)
            (process_new hash known accepts count c (take count g.undelivered) i.executed, after)
            paused in
      (
        ap (λ (s : Consumer × Group). contains n (ids s.1.delivered)) skipped
            ∙ ap (contains n) (ids-append g.delivered (take count g.undelivered))
            ∙ contains-append n (ids g.delivered) (ids (take count g.undelivered))
            ∙ ground arith,
        ap (λ s. contains n (run_iters hash known accepts count is s).0.processed) skipped
            ∙ (run_iters-Stuck n is (park_and_reopen c i, after) all_there
                (ap (contains n) (park_and_reopen-processed c i) ∙ old, once)).0,
      )
