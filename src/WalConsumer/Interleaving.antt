-- ===== src/WalConsumer/Interleaving.antt =====
-- The read loop and the flush loop, interleaved at their awaits.
use quorin.Base.{ℕ, ◌≡◌, refl, subst, Bool, List, [], ◌∷◌, ◌++◌, take}
use quorin.WalConsumer.Applied.{Within, one_if_done, apply-Applied}
use quorin.WalConsumer.Acknowledge.{
  Secured, IsConsumer, Grows, grown-Secured, Within-append, take-Within, Applied-IsConsumer,
  Applied-Grows, begin_flush-Secured, FlushKept, end_flush-FlushKept, acknowledge-FlushKept,
}
use quorin.WalConsumer.{
  OpenSegment, Message, Flushing, idle, Xack, Consumer, set_keys, extend_pending, apply,
  begin_flush, end_flush, acknowledge,
}

-- Where the read loop is: before its next batch, in a batch with the messages that are left and the ids
-- that were applied, or in the flush of the pause path, or the last one at a stop
pub data ReadLoop : Type 0 where
  waiting : ReadLoop
  applying : List Message → List ℕ → ReadLoop
  parking : Flushing → ReadLoop

pub record Loops : Type 0 where
  pub consumer : Consumer
  pub reading : ReadLoop
  pub flush_loop : Flushing

-- The flush of one loop is at its next point.
abbrev pub flush_step : Loops → Consumer × Flushing → Loops
flush_step l r = record l { consumer = r.0; flush_loop = r.1 }

abbrev pub park_step : Loops → Consumer × Flushing → Loops
park_step l r = record l { consumer = r.0; reading = parking r.1 }

-- The steps of the two coroutines, in any order: each message of a batch, the SETs of its pipeline, of
-- which a part may run before it raises, and the end of the batch are a step each, and each of
-- the two loops has a flush of its own.
pub data Step (hash : List ℕ → ℕ) (known : ℕ → Bool) (accepts : Message → Bool) (l : Loops)
    : Loops → Type 0 where
  receive :
      (ms : List Message)
      → l.reading ≡ waiting
      → Step hash known accepts l (record l { reading = applying ms [] })
  apply_one :
      (m : Message) (ms : List Message) (ids : List ℕ)
      → l.reading ≡ applying (m ∷ ms) ids
      → Step hash known accepts l (record l {
        consumer = (apply hash known accepts l.consumer m).0;
        reading = applying ms (ids ++ one_if_done m (apply hash known accepts l.consumer m).1);
      })
  run_sets :
      (ids : List ℕ) (k : ℕ)
      → l.reading ≡ applying [] ids
      → Step hash known accepts l (record l { consumer = set_keys l.consumer (take k ids) })
  executed :
      (ids : List ℕ)
      → l.reading ≡ applying [] ids
      → Step hash known accepts l
          (record l { consumer = extend_pending l.consumer ids; reading = waiting })
  raised :
      (ids : List ℕ)
      → l.reading ≡ applying [] ids
      → Step hash known accepts l (record l { reading = waiting })
  park :
      l.reading ≡ waiting
      → Step hash known accepts l
          (record l { reading = parking (begin_flush l.consumer l.consumer.pending_ack) })
  park_flushed :
      (f : Flushing) (success : Bool)
      → l.reading ≡ parking f
      → Step hash known accepts l (park_step l (end_flush l.consumer f success))
  park_ack :
      (f : Flushing) (reply : Xack)
      → l.reading ≡ parking f
      → Step hash known accepts l (park_step l (acknowledge l.consumer f reply))
  -- The pause is over, and the segments are opened again.
  park_over :
      (segments : ℕ → OpenSegment)
      → l.reading ≡ parking idle
      → Step hash known accepts l
          (record l { consumer = record l.consumer { segments = segments }; reading = waiting })
  begin :
      l.flush_loop ≡ idle
      → Step hash known accepts l
          (record l { flush_loop = begin_flush l.consumer l.consumer.pending_ack })
  finish :
      (success : Bool)
      → Step hash known accepts l (flush_step l (end_flush l.consumer l.flush_loop success))
  ack :
      (reply : Xack)
      → Step hash known accepts l (flush_step l (acknowledge l.consumer l.flush_loop reply))

pub data Run (hash : List ℕ → ℕ) (known : ℕ → Bool) (accepts : Message → Bool) (l : Loops)
    : Loops → Type 0 where
  start : Run hash known accepts l l
  then_step :
      {m n : Loops}
      → Run hash known accepts l m
      → Step hash known accepts m n
      → Run hash known accepts l n

-- What the read loop has secured
abbrev ReadSecured : List ℕ → List ℕ → ReadLoop → Type 0
ReadSecured appended durable waiting = Unit
ReadSecured appended durable (applying ms ids) = Within ids appended
ReadSecured appended durable (parking f) = Secured appended durable f

-- A message is acknowledged only after the offline writer has made it durable, and a processed key is
-- set, or a message waits for its acknowledgement, only after the writer has taken it.
pub record IsLoops (l : Loops) : Type 0 where
  pub inv : IsConsumer l.consumer
  pub flushing : Secured l.consumer.appended l.consumer.durable l.flush_loop
  pub read : ReadSecured l.consumer.appended l.consumer.durable l.reading

grown-ReadSecured :
    (c d : Consumer) (r : ReadLoop)
    → Grows c d
    → ReadSecured c.appended c.durable r
    → ReadSecured d.appended d.durable r
grown-ReadSecured c d waiting g s = tt
grown-ReadSecured c d (applying ms ids) g s = λ n h. g.appended n (s n h)
grown-ReadSecured c d (parking f) g s = grown-Secured c d f g s

read_at :
    (l : Loops) (r : ReadLoop)
    → l.reading ≡ r
    → IsLoops l
    → ReadSecured l.consumer.appended l.consumer.durable r
read_at l r e inv = subst (ReadSecured l.consumer.appended l.consumer.durable) e inv.read

flush_step-IsLoops :
    (l : Loops) (r : Consumer × Flushing)
    → IsLoops l
    → FlushKept l.consumer r
    → IsLoops (flush_step l r)
flush_step-IsLoops l r inv k = record {
  inv = k.inv;
  flushing = k.secured;
  read = grown-ReadSecured l.consumer r.0 l.reading k.grows inv.read;
}

park_step-IsLoops :
    (l : Loops) (r : Consumer × Flushing)
    → IsLoops l
    → FlushKept l.consumer r
    → IsLoops (park_step l r)
park_step-IsLoops l r inv k = record {
  inv = k.inv;
  flushing = grown-Secured l.consumer r.0 l.flush_loop k.grows inv.flushing;
  read = k.secured;
}

module _ (hash : List ℕ → ℕ) (known : ℕ → Bool) (accepts : Message → Bool) where
  apply_one-IsLoops :
      (l : Loops) (m : Message) (ms : List Message) (ids : List ℕ)
      → l.reading ≡ applying (m ∷ ms) ids
      → IsLoops l
      → IsLoops (record l {
        consumer = (apply hash known accepts l.consumer m).0;
        reading = applying ms (ids ++ one_if_done m (apply hash known accepts l.consumer m).1);
      })
  apply_one-IsLoops l m ms ids e inv =
      let d = (apply hash known accepts l.consumer m).0 in
      let new = one_if_done m (apply hash known accepts l.consumer m).1 in
      let a = apply-Applied hash known accepts l.consumer m in
      let old = read_at l (applying (m ∷ ms) ids) e inv in
      record {
        inv = Applied-IsConsumer l.consumer new d a inv.inv;
        flushing =
            grown-Secured l.consumer d l.flush_loop (Applied-Grows l.consumer new d a) inv.flushing;
        read = Within-append ids new d.appended (λ n h. a.grown n (old n h)) a.taken;
      }

  Step-IsLoops : {l m : Loops} → IsLoops l → Step hash known accepts l m → IsLoops m
  Step-IsLoops {l} inv (receive ms e) = record {
    inv = inv.inv;
    flushing = inv.flushing;
    read = λ n h. cc;
  }
  Step-IsLoops {l} inv (apply_one m ms ids e) = apply_one-IsLoops l m ms ids e inv
  Step-IsLoops {l} inv (run_sets ids k e) = record {
    inv = record {
      pending_appended = inv.inv.pending_appended;
      processed_appended =
          Within-append l.consumer.processed (take k ids) l.consumer.appended
            inv.inv.processed_appended
            (λ n h. read_at l (applying [] ids) e inv n (take-Within k ids n h));
      acked_durable = inv.inv.acked_durable;
    };
    flushing = inv.flushing;
    read = inv.read;
  }
  Step-IsLoops {l} inv (executed ids e) = record {
    inv = record {
      pending_appended =
          Within-append l.consumer.pending_ack ids l.consumer.appended inv.inv.pending_appended
            (read_at l (applying [] ids) e inv);
      processed_appended = inv.inv.processed_appended;
      acked_durable = inv.inv.acked_durable;
    };
    flushing = inv.flushing;
    read = tt;
  }
  Step-IsLoops {l} inv (raised ids e) = record { inv = inv.inv; flushing = inv.flushing; read = tt }
  Step-IsLoops {l} inv (park e) = record {
    inv = inv.inv;
    flushing = inv.flushing;
    read = begin_flush-Secured l.consumer l.consumer.pending_ack refl inv.inv;
  }
  Step-IsLoops {l} inv (park_flushed f success e) =
      park_step-IsLoops l (end_flush l.consumer f success) inv
        (end_flush-FlushKept l.consumer f success inv.inv (read_at l (parking f) e inv))
  Step-IsLoops {l} inv (park_ack f reply e) =
      park_step-IsLoops l (acknowledge l.consumer f reply) inv
        (acknowledge-FlushKept l.consumer f reply inv.inv (read_at l (parking f) e inv))
  Step-IsLoops {l} inv (park_over segments e) = record {
    inv = record {
      pending_appended = inv.inv.pending_appended;
      processed_appended = inv.inv.processed_appended;
      acked_durable = inv.inv.acked_durable;
    };
    flushing = inv.flushing;
    read = tt;
  }
  Step-IsLoops {l} inv (begin e) = record {
    inv = inv.inv;
    flushing = begin_flush-Secured l.consumer l.consumer.pending_ack refl inv.inv;
    read = inv.read;
  }
  Step-IsLoops {l} inv (finish success) =
      flush_step-IsLoops l (end_flush l.consumer l.flush_loop success) inv
        (end_flush-FlushKept l.consumer l.flush_loop success inv.inv inv.flushing)
  Step-IsLoops {l} inv (ack reply) =
      flush_step-IsLoops l (acknowledge l.consumer l.flush_loop reply) inv
        (acknowledge-FlushKept l.consumer l.flush_loop reply inv.inv inv.flushing)

  -- However the steps of the read loop and of the flush loop interleave, the flush of the pause path
  -- beside that of the flush loop included, and whatever fails: a message is acknowledged only after
  -- the offline writer has made it durable, and a processed key is set, or a message waits for its
  -- acknowledgement, only after the writer has taken it, if this holds at the start.
  pub Run-IsLoops : {l m : Loops} → IsLoops l → Run hash known accepts l m → IsLoops m
  Run-IsLoops inv start = inv
  Run-IsLoops inv (then_step run step) = Step-IsLoops (Run-IsLoops inv run) step
