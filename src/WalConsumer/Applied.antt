-- ===== src/WalConsumer/Applied.antt =====
-- What `_apply` leaves in place, whatever becomes of the message.
use quorin.Base.{
  ℕ, ◌≡◌, refl, ◌∙◌, arith, Bool, true, Option, none, some, List, [], ◌∷◌, contains, if◌then◌else◌,
  Bool-cases, inl, inr, ◌==◌,
}
use quorin.Result.{Result, ok, err}
use quorin.Memory.{Memory}
use quorin.Segment.{insert}
use quorin.WalConsumer.{
  Payload, packed, poison_pill, broken, Message, Consumer, append_offline, apply_inserted,
  apply_payload, apply_entity, apply_schema, apply, apply_all, set_segment,
}

-- Every number of one list is in another.
abbrev pub Within : List ℕ → List ℕ → Type 0
Within xs ys = (n : ℕ) → contains n xs ≡ true → contains n ys ≡ true

-- What applying messages leaves in place, with the ids that were applied
pub record Applied (c : Consumer) (ids : List ℕ) (d : Consumer) : Type 0 where
  pub pending : d.pending_ack ≡ c.pending_ack
  pub processed : d.processed ≡ c.processed
  pub acked : d.acked ≡ c.acked
  pub durable : d.durable ≡ c.durable
  pub grown : Within c.appended d.appended
  pub taken : Within ids d.appended

abbrev pub one_if_done : Message → Bool → List ℕ
one_if_done m done = if done then m.msg_id ∷ [] else []

unchanged : (c : Consumer) → Applied c [] c
unchanged c = record {
  pending = refl;
  processed = refl;
  acked = refl;
  durable = refl;
  grown = λ n h. h;
  taken = λ n h. cc;
}

module _ (hash : List ℕ → ℕ) (known : ℕ → Bool) (accepts : Message → Bool) where
  -- A step on the way from `c` to a consumer and a verdict on the message
  Applies : Consumer → Message → Consumer × Bool → Type 0
  Applies c m r = Applied c (one_if_done m r.1) r.0

  append_offline-Applies :
      (c : Consumer) (m : Message) (o : Option ℕ)
      → Applies c m (append_offline hash known accepts c m o)
  unfolding append_offline Applies
  append_offline-Applies c m none = unchanged c
  append_offline-Applies c m (some time) = elim (Bool-cases (accepts m)) [
    | inr n ↦ rw n (unchanged c)
    | inl y ↦ rw y (record {
      pending = refl;
      processed = refl;
      acked = refl;
      durable = refl;
      grown = λ n h. ground arith;
      taken = λ n h. ground arith;
    })
  ]

  apply_inserted-Applies :
      (c : Consumer) (m : Message) (s : ℕ) (r : Result (Bool × Memory))
      → Applies c m (apply_inserted hash known accepts c m s r)
  unfolding apply_inserted Applies
  apply_inserted-Applies c m s (err e) = unchanged c
  apply_inserted-Applies c m s (ok r) =
      let d =
        append_offline-Applies (record c { segments = set_segment c.segments s r.1 }) m
          m.event_time in
      record {
        pending = d.pending;
        processed = d.processed;
        acked = d.acked;
        durable = d.durable;
        grown = d.grown;
        taken = d.taken;
      }

  apply_payload-Applies :
      (c : Consumer) (m : Message) (s : ℕ) (id : List ℕ) (p : Payload)
      → Applies c m (apply_payload hash known accepts c m s id p)
  unfolding apply_payload Applies
  apply_payload-Applies c m s id poison_pill = unchanged c
  apply_payload-Applies c m s id broken = unchanged c
  apply_payload-Applies c m s id (packed row) =
      apply_inserted-Applies c m s (insert hash (c.segments s).buf (c.segments s).layout id row)

  apply_entity-Applies :
      (c : Consumer) (m : Message) (s : ℕ) (o : Option (List ℕ))
      → Applies c m (apply_entity hash known accepts c m s o)
  unfolding apply_entity Applies
  apply_entity-Applies c m s none = unchanged c
  apply_entity-Applies c m s (some id) = apply_payload-Applies c m s id m.payload

  apply_schema-Applies :
      (c : Consumer) (m : Message) (o : Option ℕ)
      → Applies c m (apply_schema hash known accepts c m o)
  unfolding apply_schema Applies
  apply_schema-Applies c m none = unchanged c
  apply_schema-Applies c m (some s) = elim (Bool-cases (known s)) [
    | inl y ↦ rw y (apply_entity-Applies c m s m.entity_id)
    | inr n ↦ rw n (record {
      pending = refl;
      processed = refl;
      acked = refl;
      durable = refl;
      grown = λ k h. h;
      taken = λ k h. cc;
    })
  ]

  pub apply-Applied :
      (c : Consumer) (m : Message)
      → Applied c (one_if_done m (apply hash known accepts c m).1) (apply hash known accepts c m).0
  unfolding apply Applies
  apply-Applied c m = apply_schema-Applies c m m.schema_name

  pub apply_all-Applied :
      (c : Consumer) (ms : List Message)
      → Applied c (apply_all hash known accepts c ms).1 (apply_all hash known accepts c ms).0
  unfolding apply_all apply Applies
  apply_all-Applied c [] = unchanged c
  apply_all-Applied c (m ∷ ms) =
      let first = apply_schema-Applies c m m.schema_name in
      let d = apply_schema hash known accepts c m m.schema_name in
      let rest = apply_all-Applied d.0 ms in
      record {
        pending = rest.pending ∙ first.pending;
        processed = rest.processed ∙ first.processed;
        acked = rest.acked ∙ first.acked;
        durable = rest.durable ∙ first.durable;
        grown = λ n h. rest.grown n (first.grown n h);
        taken = λ n h. elim (Bool-cases d.1) [
          | inr off ↦ rest.taken n (rw off at h)
          | inl on ↦ elim (Bool-cases (n == m.msg_id)) [
            | inl same ↦ rest.grown n (first.taken n (rw on (ground (arith, same))))
            | inr other ↦ rest.taken n (ground (arith, rw on at h, other))
          ]
        ];
      }
