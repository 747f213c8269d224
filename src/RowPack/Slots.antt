-- ===== src/RowPack/Slots.antt =====
-- What the loop over the shaped slots writes.
use quorin.Base.{
  ℕ, ◌+◌, ◌≤◌, ◌≡◌, inl, inr, refl, ◌∙◌, ap, subst, arith, max, Bool, true, false, List, [], ◌∷◌,
  All,
}
use quorin.Result.{Result, ok}
use quorin.Memory.{Memory, read_bytes, write_bytes}
use quorin.Memory.Frame.{read_bytes-write_bytes, read_bytes_congr}
use quorin.RowPack.{PlanRow, Emitted, width, add_row, emit, flat_bytes, value_at, fill_slots}
use quorin.RowPack.Struct.{
  Chain, Chain-le, Keeps, write_bytes-Keeps, read-Keeps, convert, Fits, Reads, EndBy, rows_Keeps,
}

module _ (Value : Type 0) (struct_bytes : ℕ → Value → Result (List ℕ))
    (asarray : ℕ → Value → Result (List (List ℕ))) (values : List Value)
    (image : PlanRow → List ℕ) where
  abbrev pub FilledRow : Memory → Memory → PlanRow → Type 0
  FilledRow m n r =
      (r.is_true_scalar ≡ true
        → read_bytes n r.byte_off r.byte_cnt ≡ read_bytes m r.byte_off r.byte_cnt)
      × (r.is_true_scalar ≡ false → (Reads Value struct_bytes asarray values image) n r)

  -- What was written before a row does not touch the rows behind it.
  all-FilledRow :
      (m k n : Memory) (lo hi : ℕ) (rs : List PlanRow)
      → Keeps lo hi m k
      → Chain hi rs
      → All (FilledRow k n) rs
      → All (FilledRow m n) rs
  all-FilledRow m k n lo hi [] keeps chain a = tt
  all-FilledRow m k n lo hi (r ∷ rs) keeps chain a =
      let le = chain.0 in
      let same : read_bytes k r.byte_off r.byte_cnt ≡ read_bytes m r.byte_off r.byte_cnt =
        read_bytes_congr k m r.byte_off r.byte_cnt (λ i p q. keeps i (inr (omega arith))) in
      (
        (λ scalar. a.0.0 scalar ∙ same, a.0.1),
        all-FilledRow m k n lo hi rs keeps (Chain-le rs (omega arith) chain.1) a.1,
      )

  pub record Filled (m : Memory) (c hi : ℕ) (rs : List PlanRow) (packed : Result Memory)
      : Type 0 where
    pub result : Memory
    pub returned : packed ≡ ok result
    pub keeps : Keeps c hi m result
    pub shaped : All (FilledRow m result) rs

  flat :
      (r : PlanRow) (f : (Fits Value struct_bytes asarray values image) r)
      → r.is_true_scalar ≡ false
      → flat_bytes Value struct_bytes asarray r.dtype r.elem_cnt f.value ≡ ok (image r)
  unfolding convert
  flat r f e =
      subst (λ b. convert Value struct_bytes asarray r.dtype r.elem_cnt b f.value ≡ ok (image r)) e
        f.converts

  abbrev pub fill : Memory → Emitted → Result Memory
  fill m e = fill_slots Value struct_bytes asarray values m e.shaped_slots

  -- A slot writes its row; a scalar leaves the memory as it is.
  record Shaped (m : Memory) (c : ℕ) (r : PlanRow) (b : Bool) (rest : Emitted) : Type 0 where
    after : Memory
    fills : fill m (add_row c r b rest) ≡ fill after rest
    keeps : Keeps r.byte_off (r.byte_off + r.byte_cnt) m after
    scalar : b ≡ true → after ≡ m
    slot : b ≡ false → (Reads Value struct_bytes asarray values image) after r

  slot_row :
      (m : Memory) (c : ℕ) (r : PlanRow) (b : Bool) (rest : Emitted)
      → r.is_true_scalar ≡ b
      → (Fits Value struct_bytes asarray values image) r
      → Shaped m c r b rest
  unfolding add_row fill_slots value_at
  slot_row m c r true rest e f = record {
    after = m;
    fills = refl;
    keeps = λ i h. refl;
    scalar = λ h. refl;
    slot = λ h. cc;
  }
  slot_row m c r false rest e f = record {
    after = write_bytes m r.byte_off (image r);
    fills = rw (f.there, flat r f e) refl;
    keeps =
        write_bytes-Keeps m r.byte_off r.byte_cnt (r.byte_off + r.byte_cnt) (image r) f.wide
          (omega arith);
    scalar = λ h. cc;
    slot = λ h. read_bytes-write_bytes m r.byte_off (image r) r.byte_cnt f.wide;
  }

  -- The loop over the shaped slots writes the others, and leaves the scalars.
  pub fill-Filled :
      (m : Memory) (c k hi : ℕ) (rs : List PlanRow)
      → Chain c rs
      → (EndBy Value struct_bytes asarray values image) hi rs
      → All (Fits Value struct_bytes asarray values image) rs
      → Filled m c hi rs (fill m (emit k rs))
  unfolding emit fill_slots
  fill-Filled m c k hi [] chain ends fits = record {
    result = m;
    returned = refl;
    keeps = λ i h. refl;
    shaped = tt;
  }
  fill-Filled m c k hi (r ∷ rs) chain ends fits =
      let next = r.byte_off + r.byte_cnt in
      let later = emit (max k r.byte_off + width r r.is_true_scalar) rs in
      let step = slot_row m k r r.is_true_scalar later refl fits.0 in
      let rest =
        fill-Filled step.after next (max k r.byte_off + width r r.is_true_scalar) hi rs chain.1
          ends.1 fits.1 in
      record {
        result = rest.result;
        returned = step.fills ∙ rest.returned;
        keeps =
            (rows_Keeps Value struct_bytes asarray values image) m m step.after rest.result chain.0
              (omega arith) ends.0 (λ i h. refl) (widened ends.0 step.keeps) rest.keeps;
        shaped = (
          (
            λ scalar.
                read-Keeps r.byte_off r.byte_cnt (omega arith) rest.keeps
                ∙ ap (λ n. read_bytes n r.byte_off r.byte_cnt) (step.scalar scalar),
            λ shaped. read-Keeps r.byte_off r.byte_cnt (omega arith) rest.keeps ∙ step.slot shaped,
          ),
          all-FilledRow m step.after rest.result r.byte_off next rs step.keeps chain.1 rest.shaped,
        );
      }
    where
      widened : {lo mid hi : ℕ} {m n : Memory} → mid ≤ hi → Keeps lo mid m n → Keeps lo hi m n
      widened le keeps i (inl h) = keeps i (inl h)
      widened le keeps i (inr h) = keeps i (inr (omega arith))
