-- ===== src/WalConsumer/Acknowledge.antt =====
-- Acknowledgement and durability.
use quorin.Base.{
  ℕ, zero, suc, ◌≡◌, subst, arith, Bool, true, false, List, [], ◌∷◌, ◌++◌, take, drop, length,
  contains, contains-append, Bool-cases, inl, inr,
}
use quorin.WalConsumer.Applied.{Within, Applied}
use quorin.WalConsumer.{
  Flushing, idle, running, flushed, Consumer, begin_flush, end_flush, acknowledge, Xack, answered,
  refused, unanswered, xack,
}

-- What a flush under way has secured
abbrev pub Secured : List ℕ → List ℕ → Flushing → Type 0
Secured appended durable idle = Unit
Secured appended durable (running snapshot covered) =
    Within snapshot covered × Within covered appended
Secured appended durable (flushed snapshot) = Within snapshot durable

pub record IsConsumer (c : Consumer) : Type 0 where
  pub pending_appended : Within c.pending_ack c.appended
  pub processed_appended : Within c.processed c.appended
  pub acked_durable : Within c.acked c.durable

-- What is taken, and what is durable, only grows.
pub record Grows (c d : Consumer) : Type 0 where
  pub appended : Within c.appended d.appended
  pub durable : Within c.durable d.durable

pub grown-Secured :
    (c d : Consumer) (f : Flushing)
    → Grows c d
    → Secured c.appended c.durable f
    → Secured d.appended d.durable f
grown-Secured c d idle g s = tt
grown-Secured c d (running snapshot covered) g (a, b) = (a, λ n h. g.appended n (b n h))
grown-Secured c d (flushed snapshot) g a = λ n h. g.durable n (a n h)

pub Within-append : (xs ys zs : List ℕ) → Within xs zs → Within ys zs → Within (xs ++ ys) zs
Within-append xs ys zs a b n h =
    let split = contains-append n xs ys in
    elim (Bool-cases (contains n xs)) [ inl y ↦ a n y | inr off ↦ b n (ground (arith, off)) ]

pub take-Within : (k : ℕ) (xs : List ℕ) → Within (take k xs) xs
take-Within zero xs n h = cc
take-Within (suc k) [] n h = h
take-Within (suc k) (x ∷ xs) n h = let rest = take-Within k xs n in ground arith

drop-Within : (k : ℕ) (xs : List ℕ) → Within (drop k xs) xs
drop-Within zero xs n h = h
drop-Within (suc k) [] n h = h
drop-Within (suc k) (x ∷ xs) n h = let rest = drop-Within k xs n h in ground arith

-- Applying messages changes neither what waits nor what is acknowledged.
pub Applied-IsConsumer :
    (c : Consumer) (ids : List ℕ) (d : Consumer) → Applied c ids d → IsConsumer c → IsConsumer d
Applied-IsConsumer c ids d a inv = record {
  pending_appended = rw a.pending (λ n h. a.grown n (inv.pending_appended n h));
  processed_appended = rw a.processed (λ n h. a.grown n (inv.processed_appended n h));
  acked_durable = rw (a.acked, a.durable) inv.acked_durable;
}

pub Applied-Grows : (c : Consumer) (ids : List ℕ) (d : Consumer) → Applied c ids d → Grows c d
Applied-Grows c ids d a = record { appended = a.grown; durable = λ n h. rw a.durable h }

-- A snapshot of what waits
pub begin_flush-Secured :
    (c : Consumer) (snapshot : List ℕ)
    → c.pending_ack ≡ snapshot
    → IsConsumer c
    → Secured c.appended c.durable (begin_flush c snapshot)
unfolding begin_flush
begin_flush-Secured c [] e inv = tt
begin_flush-Secured c (x ∷ xs) e inv =
    (subst (λ t. Within t c.appended) e inv.pending_appended, λ n h. h)

-- What a step of a flush leaves: the invariant, and what this flush and any other has secured
pub record FlushKept (c : Consumer) (r : Consumer × Flushing) : Type 0 where
  pub inv : IsConsumer r.0
  pub secured : Secured r.0.appended r.0.durable r.1
  pub grows : Grows c r.0

pub unchanged-FlushKept :
    (c : Consumer) (f : Flushing)
    → IsConsumer c
    → Secured c.appended c.durable f
    → FlushKept c (c, f)
unchanged-FlushKept c f inv s = record {
  inv = inv;
  secured = s;
  grows = record { appended = λ n h. h; durable = λ n h. h };
}

within_front : (xs ys : List ℕ) → Within xs (xs ++ ys)
within_front xs ys n h = let split = contains-append n xs ys in ground arith

within_back : (xs ys : List ℕ) → Within ys (xs ++ ys)
within_back xs ys n h = let split = contains-append n xs ys in ground arith

pub end_flush-FlushKept :
    (c : Consumer) (f : Flushing) (success : Bool)
    → IsConsumer c
    → Secured c.appended c.durable f
    → FlushKept c (end_flush c f success)
unfolding end_flush
end_flush-FlushKept c idle success inv s = unchanged-FlushKept c idle inv s
end_flush-FlushKept c (flushed snapshot) success inv s =
    unchanged-FlushKept c (flushed snapshot) inv s
end_flush-FlushKept c (running snapshot covered) false inv s = unchanged-FlushKept c idle inv tt
end_flush-FlushKept c (running snapshot covered) true inv (within, known) = record {
  inv = record {
    pending_appended = inv.pending_appended;
    processed_appended = inv.processed_appended;
    acked_durable = λ n h. within_back covered c.durable n (inv.acked_durable n h);
  };
  secured = λ n h. within_front covered c.durable n (within n h);
  grows = record { appended = λ n h. h; durable = within_back covered c.durable };
}

xack-FlushKept :
    (c : Consumer) (snapshot : List ℕ) (reply : Xack)
    → IsConsumer c
    → Within snapshot c.durable
    → FlushKept c (xack c snapshot reply, idle)
unfolding xack
xack-FlushKept c snapshot refused inv within = unchanged-FlushKept c idle inv tt
xack-FlushKept c snapshot unanswered inv within = record {
  inv = record {
    pending_appended = inv.pending_appended;
    processed_appended = inv.processed_appended;
    acked_durable = Within-append c.acked snapshot c.durable inv.acked_durable within;
  };
  secured = tt;
  grows = record { appended = λ n h. h; durable = λ n h. h };
}
xack-FlushKept c snapshot answered inv within = record {
  inv = record {
    pending_appended =
        λ n h. inv.pending_appended n (drop-Within (length snapshot) c.pending_ack n h);
    processed_appended = inv.processed_appended;
    acked_durable = Within-append c.acked snapshot c.durable inv.acked_durable within;
  };
  secured = tt;
  grows = record { appended = λ n h. h; durable = λ n h. h };
}

pub acknowledge-FlushKept :
    (c : Consumer) (f : Flushing) (reply : Xack)
    → IsConsumer c
    → Secured c.appended c.durable f
    → FlushKept c (acknowledge c f reply)
unfolding acknowledge
acknowledge-FlushKept c idle reply inv s = unchanged-FlushKept c idle inv s
acknowledge-FlushKept c (running snapshot covered) reply inv s =
    unchanged-FlushKept c (running snapshot covered) inv s
acknowledge-FlushKept c (flushed snapshot) reply inv within =
    xack-FlushKept c snapshot reply inv within
