-- ===== src/WalProducer/Polling.antt =====
-- The loop of `write_sync`.
use quorin.Base.{
  ℕ, zero, suc, ◌+◌, ◌*◌, ◌≤◌, ◌<◌, ◌≡◌, refl, sym, subst, ◌∙◌, ap, arith, Bool, true, false,
  Option, none, some, List, leb,
}
use native.Mathlib.Decide.{dec_lt}
use quorin.Result.{Result, ok, err, redis_error, write_sync_timeout}
use quorin.WalProducer.{
  Stream, Entry, SchemaClass, Producer, do_write, poll_round, poll, backoff, wait_processed,
  write_sync,
}

-- A sleep takes as long as it was told, or longer.
abbrev pub Sleeps : (ℕ → ℕ) → Type 0
Sleeps monotonic = (k : ℕ) → monotonic k + backoff k ≤ monotonic (suc k)

backoff-millisecond : (k : ℕ) → 1000 ≤ backoff k
unfolding backoff
backoff-millisecond zero = omega arith
backoff-millisecond (suc k) = omega (arith, backoff-millisecond k)

-- What the loop has come to at a round
module _ (exists : ℕ → Option Bool) (monotonic : ℕ → ℕ) (deadline msg_id : ℕ) where
  -- The rounds from `first` up to a round found nothing, and were before the deadline.
  abbrev pub Waited : ℕ → ℕ → Type 0
  Waited first last =
      (j : ℕ) → first ≤ j → j < last → (exists j ≡ some false) × (monotonic j < deadline)

  -- The reason for which a round ends the loop
  pub data Ended (round : ℕ) : Result ℕ → Type 0 where
    found : exists round ≡ some true → Ended round (ok msg_id)
    late :
        exists round ≡ some false
        → deadline ≤ monotonic round
        → Ended round (err write_sync_timeout)
    broken : exists round ≡ none → Ended round (err redis_error)

  pub record Outcome (first last : ℕ) (polled : Option (Result ℕ)) : Type 0 where
    pub round : ℕ
    pub result : Result ℕ
    pub from : first ≤ round
    pub bounded : round ≤ last
    pub returned : polled ≡ some result
    pub waited : Waited first round
    pub ended : Ended round result

  ends_at :
      (first last : ℕ) (polled : Option (Result ℕ)) (result : Result ℕ)
      → first ≤ last
      → polled ≡ some result
      → Ended first result
      → Outcome first last polled
  ends_at first last polled result le e end = record {
    round = first;
    result = result;
    from = omega arith;
    bounded = le;
    returned = e;
    waited = λ j p q. absurd (omega arith);
    ended = end;
  }

  abbrev polled : ℕ → Option Bool → Bool → Option (Result ℕ) → Option (Result ℕ)
  polled = poll_round exists monotonic deadline

  goes_on :
      (first last : ℕ) (rest : Option (Result ℕ))
      → exists first ≡ some false
      → monotonic first < deadline
      → Outcome (suc first) last rest
      → Outcome first last rest
  goes_on first last rest unanswered early o = record {
    round = o.round;
    result = o.result;
    from = let later = o.from in omega arith;
    bounded = o.bounded;
    returned = o.returned;
    waited = λ j p q. elim (dec_lt first j) [
      | yes behind ↦ o.waited j behind q
      | no ahead ↦
          let e : first ≡ j = omega arith in
          (sym (ap exists e) ∙ unanswered, omega (arith, ap monotonic e))
    ];
    ended = o.ended;
  }

  poll_round-Outcome :
      (first last : ℕ) (answer : Option Bool) (test : Bool) (rest : Option (Result ℕ))
      → exists first ≡ answer
      → leb deadline (monotonic first) ≡ test
      → first ≤ last
      → (test ≡ false → Outcome (suc first) last rest)
      → Outcome first last (polled msg_id answer test rest)
  unfolding poll_round
  poll_round-Outcome first last none test rest e t le later =
      ends_at first last _ (err redis_error) le refl (broken e)
  poll_round-Outcome first last (some true) test rest e t le later =
      ends_at first last _ (ok msg_id) le refl (found e)
  poll_round-Outcome first last (some false) true rest e t le later =
      ends_at first last _ (err write_sync_timeout) le refl (late e (ground arith))
  poll_round-Outcome first last (some false) false rest e t le later =
      goes_on first last rest e (ground arith) (later refl)

  -- Once the clock is close enough to the deadline for the fuel, the loop ends.
  poll-Outcome :
      Sleeps monotonic
      → (fuel round : ℕ) → deadline ≤ monotonic round + fuel * 1000
      → Outcome round (round + fuel) (poll exists monotonic deadline msg_id (suc fuel) round)
  unfolding poll
  poll-Outcome sleeps zero round near =
      poll_round-Outcome round (round + 0) (exists round) (leb deadline (monotonic round)) none refl
        refl (omega arith) (λ early. absurd (ground arith))
  poll-Outcome sleeps (suc fuel) round near =
      let slept = sleeps round in
      let floor = backoff-millisecond round in
      poll_round-Outcome round (round + suc fuel) (exists round) (leb deadline (monotonic round))
        (poll exists monotonic deadline msg_id (suc fuel) (suc round)) refl refl (omega arith)
        (λ early.
          subst
            (λ n.
              Outcome (suc round) n (poll exists monotonic deadline msg_id (suc fuel) (suc round)))
            (omega arith) (poll-Outcome sleeps fuel (suc round) (omega arith)))

wait_processed-Outcome :
    (exists : ℕ → Option Bool) (monotonic : ℕ → ℕ) (start timeout_ms msg_id : ℕ) (p : Producer)
    → Sleeps monotonic
    → start ≤ monotonic 0
    → Outcome exists monotonic
        (start + timeout_ms * 1000)
        msg_id
        0
        timeout_ms
        (wait_processed exists monotonic start timeout_ms (suc timeout_ms) (p, ok msg_id)).1
unfolding wait_processed
wait_processed-Outcome exists monotonic start timeout_ms msg_id p sleeps begun =
    let deadline = start + timeout_ms * 1000 in
    subst
      (λ n.
        Outcome exists monotonic deadline msg_id 0 n
          (poll exists monotonic deadline msg_id (suc timeout_ms) 0))
      (omega arith)
      (poll-Outcome exists monotonic deadline msg_id sleeps timeout_ms 0 (omega arith))

module _ (hash : List ℕ → ℕ) (Values Value : Type 0)
    (validate : ℕ → Values → Result (List ℕ → Value)) (pack : List Value → List ℕ)
    (xadd : Stream → Entry → Result (ℕ × Stream)) where
  -- If `_do_write` returned the id of a message, the first reading of the clock is at the start or later,
  -- and sleeps last as long as they are told: with fuel for one round more than there are
  -- milliseconds, `write_sync` ends, in round `timeout_ms` or before it. It returns the id in the
  -- first round that finds the key of the consumer, raises WriteSyncTimeoutError in the first round at or
  -- behind the deadline that does not, and the error of Redis in the first round where EXISTS raises.
  pub write_sync-Outcome :
      (exists : ℕ → Option Bool) (monotonic : ℕ → ℕ) (start timeout_ms : ℕ) (p after : Producer)
      (c : SchemaClass) (id : List ℕ) (values : Values) (time msg_id : ℕ)
      → do_write hash Values Value validate pack xadd p c id values time ≡ (after, ok msg_id)
      → Sleeps monotonic
      → start ≤ monotonic 0
      → Outcome exists monotonic
          (start + timeout_ms * 1000)
          msg_id
          0
          timeout_ms
          (write_sync hash Values Value validate pack xadd exists monotonic start timeout_ms
            (suc timeout_ms)
            p
            c
            id
            values
            time).1
  unfolding write_sync
  write_sync-Outcome exists monotonic start timeout_ms p after c id values time msg_id sent sleeps
        begun =
      rw sent (wait_processed-Outcome exists monotonic start timeout_ms msg_id after sleeps begun)
