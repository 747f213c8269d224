-- ===== src/WalConsumer/Reading/Draining.antt =====
-- The loop over the pending messages at the start.
use mathlib.Core.List.{flatten}
use quorin.Base.{
  ℕ, zero, suc, ◌+◌, ◌*◌, ◌≤◌, ◌<◌, ◌≡◌, refl, sym, subst, ◌∙◌, ap, arith, Bool, true, false,
  Bool-cases, inl, inr, length-append, Option, some, List, [], ◌∷◌, ◌++◌, take, drop, length,
}
use quorin.WalConsumer.{Message, Consumer, process_batch, has_room}
use quorin.WalConsumer.Backpressure.{process_batch_growth}
use quorin.WalConsumer.Reading.{above, last_id, drain_batch, drain_pel, DrainEnd, ended, blocked}

-- The ids increase.
abbrev pub Ascends : ℕ → List Message → Type 0
Ascends lo [] = Unit
Ascends lo (m ∷ ms) = (lo < m.msg_id) × Ascends m.msg_id ms

Ascends-le : (lo hi : ℕ) (ms : List Message) → lo ≤ hi → Ascends hi ms → Ascends lo ms
Ascends-le lo hi [] le a = tt
Ascends-le lo hi (m ∷ ms) le a = (omega arith, a.1)

above-Ascends : (id : ℕ) (ms : List Message) → Ascends id ms → above id ms ≡ ms
unfolding above
above-Ascends id [] a = refl
above-Ascends id (m ∷ ms) a =
    let rest = above-Ascends id ms (Ascends-le id m.msg_id ms (omega arith) a.1) in
    let up = a.0 in rw rest (ground arith)

last_id-le : (id k : ℕ) (ms : List Message) → Ascends id ms → id ≤ last_id id (take k ms)
unfolding last_id
last_id-le id zero ms a = omega arith
last_id-le id (suc k) [] a = omega arith
last_id-le id (suc k) (m ∷ ms) a = omega (arith, last_id-le m.msg_id k ms a.1)

-- Behind the last id of a batch is the rest.
above-last_id :
    (id k : ℕ) (ms : List Message) → Ascends id ms → above (last_id id (take k ms)) ms ≡ drop k ms
unfolding last_id above
above-last_id id zero ms a = above-Ascends id ms a
above-last_id id (suc k) [] a = refl
above-last_id id (suc k) (m ∷ ms) a =
    let le = last_id-le m.msg_id k ms a.1 in
    let rest = above-last_id m.msg_id k ms a.1 in rw rest (ground arith)

above-above :
    (id later : ℕ) (ms : List Message) → id ≤ later → above later (above id ms) ≡ above later ms
unfolding above
above-above id later [] le = refl
above-above id later (m ∷ ms) le = ground (arith, above-above id later ms)

drop-Ascends :
    (id k : ℕ) (ms : List Message) → Ascends id ms → Ascends (last_id id (take k ms)) (drop k ms)
unfolding last_id
drop-Ascends id zero ms a = a
drop-Ascends id (suc k) [] a = tt
drop-Ascends id (suc k) (m ∷ ms) a = drop-Ascends m.msg_id k ms a.1

append_assoc : (xs ys zs : List Message) → (xs ++ ys) ++ zs ≡ xs ++ (ys ++ zs)
append_assoc [] ys zs = refl
append_assoc (x ∷ xs) ys zs = ap (λ t. x ∷ t) (append_assoc xs ys zs)

take-drop : (k : ℕ) (ms : List Message) → take k ms ++ drop k ms ≡ ms
take-drop zero ms = refl
take-drop (suc k) [] = refl
take-drop (suc k) (m ∷ ms) = ap (λ t. m ∷ t) (take-drop k ms)

drop_shorter :
    (k : ℕ) (m : Message) (ms : List Message) → length (drop (suc k) (m ∷ ms)) ≤ length ms
drop_shorter zero m ms = omega arith
drop_shorter (suc k) m [] = omega arith
drop_shorter (suc k) m (x ∷ ms) = let rest = drop_shorter k x ms in omega arith

module _ (hash : List ℕ → ℕ) (known : ℕ → Bool) (accepts : Message → Bool) where
  -- Batches that are processed one after the other
  abbrev pub process_batches : Consumer → List (List Message) → Consumer
  process_batches c [] = c
  process_batches c (b ∷ bs) = process_batches (process_batch hash known accepts c b true) bs

  -- All messages are processed, in batches, each once, in their order, or the loop waits before a message
  -- with 2 * max messages that wait for their acknowledgement.
  pub data Drains (max : ℕ) (c : Consumer) (ms : List Message) (r : Option DrainEnd) : Type 0 where
    all :
        (batches : List (List Message))
        → flatten batches ≡ ms
        → r ≡ some (ended (process_batches c batches))
        → Drains max c ms r
    full :
        (batches : List (List Message)) (m : Message) (rest : List Message)
        → flatten batches ++ m ∷ rest ≡ ms
        → 2 * max ≤ length (process_batches c batches).pending_ack
        → r ≡ some (blocked (process_batches c batches))
        → Drains max c ms r

  -- A batch before the rest
  cons-Drains :
      (max : ℕ) (c : Consumer) (batch ms : List Message) (r : Option DrainEnd)
      → Drains max (process_batch hash known accepts c batch true) ms r
      → Drains max c (batch ++ ms) r
  unfolding flatten
  cons-Drains max c batch ms r (all batches whole result) =
      all (batch ∷ batches) (ap (λ t. batch ++ t) whole) result
  cons-Drains max c batch ms r (full batches m rest whole many result) =
      full (batch ∷ batches) m rest
        (append_assoc batch (flatten batches) (m ∷ rest) ∙ ap (λ t. batch ++ t) whole) many result

  process_batches_growth :
      (c : Consumer) (batches : List (List Message))
      → length (process_batches c batches).pending_ack
        ≤ length c.pending_ack + length (flatten batches)
  unfolding flatten
  process_batches_growth c [] = omega arith
  process_batches_growth c (b ∷ bs) =
      let rest = process_batches_growth (process_batch hash known accepts c b true) bs in
      let few = process_batch_growth hash known accepts c b true in
      let sum = length-append b (flatten bs) in omega arith

  module _ (max : ℕ) (stopped executes : ℕ → Bool) (running : (id : ℕ) → stopped id ≡ false)
      (answers : (id : ℕ) → executes id ≡ true) where
    module _ (k : ℕ) (pel : List Message) where
      abbrev loop : ℕ → ℕ → Consumer → Option DrainEnd
      loop fuel id c = drain_pel hash known accepts (suc k) max stopped executes fuel pel id c

      drain-Drains :
          (fuel id : ℕ) (c : Consumer) (rest : List Message)
          → above id pel ≡ rest
          → Ascends id rest
          → length rest < fuel
          → Drains max c rest (loop fuel id c)
      unfolding drain_pel drain_batch last_id has_room flatten
      drain-Drains zero id c rest e a le = absurd (omega arith)
      drain-Drains (suc fuel) id c [] e a le = all [] refl (rw (running id, e) refl)
      drain-Drains (suc fuel) id c (m ∷ ms) e a le =
          let batch = take (suc k) (m ∷ ms) in
          let last = last_id id batch in
          let later : above last pel ≡ drop (suc k) (m ∷ ms) =
            sym (above-above id last pel (last_id-le id (suc k) (m ∷ ms) a))
            ∙ ap (above last) e
            ∙ above-last_id id (suc k) (m ∷ ms) a in
          let short = drop_shorter k m ms in
          let r =
            drain-Drains fuel last (process_batch hash known accepts c batch true)
              (drop (suc k) (m ∷ ms)) later (drop-Ascends id (suc k) (m ∷ ms) a) (omega arith) in
          elim (Bool-cases (has_room c max)) [
            | inl y ↦
                rw (running id, e, y, answers id)
                  (subst
                    (λ t.
                      Drains max c t
                        (loop fuel last (process_batch hash known accepts c batch true)))
                    (take-drop (suc k) (m ∷ ms))
                    (cons-Drains max c batch (drop (suc k) (m ∷ ms)) _ r))
            | inr n ↦ full [] m ms refl (ground (arith, n)) (rw (running id, e, n) refl)
          ]

    -- If the ids of the pending messages increase from above 0, a batch is not empty, there is fuel for
    -- one round more than there are messages, no stop is asked for, and the pipelines go through: the
    -- loop has processed the pending messages in batches, each message once, in their order, when it
    -- ends, or as many of them as it takes until 2 * max messages wait for their acknowledgement, and
    -- it waits before the next.
    pub drain_pel_lem :
        (k fuel : ℕ) (pel : List Message) (c : Consumer)
        → Ascends 0 pel
        → length pel < fuel
        → Drains max c pel (drain_pel hash known accepts (suc k) max stopped executes fuel pel 0 c)
    drain_pel_lem k fuel pel c a le = drain-Drains k pel fuel 0 c pel (above-Ascends 0 pel a) a le

    fits-ends :
        (c : Consumer) (pel : List Message) (r : Option DrainEnd)
        → length c.pending_ack + length pel ≤ 2 * max
        → Drains max c pel r
        → (batches : List (List Message)) × (flatten batches ≡ pel)
          × (r ≡ some (ended (process_batches c batches)))
    fits-ends c pel r fits (all batches whole result) = (batches, whole, result)
    fits-ends c pel r fits (full batches m rest whole many result) =
        let few = process_batches_growth c batches in
        let sum = length-append (flatten batches) (m ∷ rest) in
        let size = ap length whole in absurd (omega arith)

    -- If the ids of the pending messages increase from above 0, a batch is not empty, there is fuel for
    -- one round more than there are messages, no stop is asked for, the pipelines go through, and at
    -- most 2 * max messages wait for their acknowledgement or are pending: the loop ends, and has
    -- processed all pending messages in batches, each once, in their order.
    pub drain_pel_ends :
        (k fuel : ℕ) (pel : List Message) (c : Consumer)
        → Ascends 0 pel
        → length pel < fuel
        → length c.pending_ack + length pel ≤ 2 * max
        → (batches : List (List Message)) × (flatten batches ≡ pel)
          × (drain_pel hash known accepts (suc k) max stopped executes fuel pel 0 c
              ≡ some (ended (process_batches c batches)))
    drain_pel_ends k fuel pel c a le fits =
        fits-ends c pel (drain_pel hash known accepts (suc k) max stopped executes fuel pel 0 c)
          fits (drain_pel_lem k fuel pel c a le)
