-- ===== src/RowPack/Filling.antt =====
-- What a plan writes: the struct and the shaped slots together.
use quorin.Base.{
  ℕ, ◌+◌, ◌≡◌, inl, inr, refl, ◌∙◌, ap, subst, arith, max, Bool, true, false, List, [], ◌∷◌, map,
  get_elem?, All, Bool-cases,
}
use quorin.Result.{Result, ok, ◌>>=◌}
use quorin.Memory.{Memory}
use quorin.RowPack.{PlanRow, Emitted, width, add_row, emit, pack_into, pack_scalars}
use quorin.RowPack.Struct.{Chain, Keeps, Fits, Reads, EndBy, Struct, pack-Struct}
use quorin.RowPack.Slots.{FilledRow, fill, fill-Filled}

module _ (Value : Type 0) (struct_bytes : ℕ → Value → Result (List ℕ))
    (asarray : ℕ → Value → Result (List (List ℕ))) (values : List Value)
    (image : PlanRow → List ℕ) where
  pub record Packed (m : Memory) (hi : ℕ) (rs : List PlanRow) (packed : Result Memory)
      : Type 0 where
    pub result : Memory
    pub returned : packed ≡ ok result
    pub keeps : Keeps 0 hi m result
    pub reads : All ((Reads Value struct_bytes asarray values image) result) rs

  no_scalars :
      (k : ℕ) (rs : List PlanRow)
      → (emit k rs).scalar_indices ≡ []
      → All (λ r. r.is_true_scalar ≡ false) rs
  unfolding emit add_row
  no_scalars k [] none_e = tt
  no_scalars k (r ∷ rs) none_e =
      let next = max k r.byte_off + width r r.is_true_scalar in
      let (shaped, later) = no_scalar k r r.is_true_scalar (emit next rs) none_e in
      (shaped, no_scalars next rs later)
    where
      no_scalar :
          (k : ℕ) (r : PlanRow) (b : Bool) (rest : Emitted)
          → (add_row k r b rest).scalar_indices ≡ []
          → (b ≡ false) × (rest.scalar_indices ≡ [])
      no_scalar k r true rest e = cc
      no_scalar k r false rest e = (refl, e)

  vacuous :
      (m : Memory) (rs : List PlanRow)
      → All (λ r. r.is_true_scalar ≡ false) rs
      → All (λ r. r.is_true_scalar ≡ true → (Reads Value struct_bytes asarray values image) m r) rs
  vacuous m [] a = tt
  vacuous m (r ∷ rs) a = let shaped = a.0 in (λ scalar. cc, vacuous m rs a.1)

  abbrev scalars_into : Memory → Emitted → List ℕ → Result Memory
  scalars_into m e is = pack_scalars Value struct_bytes asarray values m e.fmt_parts is

  pack_scalars-Struct :
      (m : Memory) (hi : ℕ) (rs : List PlanRow) (is : List ℕ)
      → (emit 0 rs).scalar_indices ≡ is
      → Chain 0 rs
      → (EndBy Value struct_bytes asarray values image) hi rs
      → All (Fits Value struct_bytes asarray values image) rs
      → (Struct Value struct_bytes asarray values image) m 0 hi rs (scalars_into m (emit 0 rs) is)
  unfolding pack_scalars
  pack_scalars-Struct m hi rs [] e chain ends fits = record {
    result = m;
    returned = refl;
    keeps = λ i h. refl;
    scalars = vacuous m rs (no_scalars 0 rs e);
  }
  pack_scalars-Struct m hi rs (i ∷ is) e chain ends fits =
      subst
        (λ is. (Struct Value struct_bytes asarray values image) m 0 hi rs (
          pack_into Value struct_bytes asarray m 0 (emit 0 rs).fmt_parts
            (map (get_elem? values) is)))
        e
        ((pack-Struct Value struct_bytes asarray values image) m 0 hi rs (omega arith) chain ends
          fits)

  both :
      (m n k : Memory) (rs : List PlanRow)
      → All (λ r. r.is_true_scalar ≡ true → (Reads Value struct_bytes asarray values image) n r) rs
      → All ((FilledRow Value struct_bytes asarray values image) n k) rs
      → All ((Reads Value struct_bytes asarray values image) k) rs
  both m n k [] a b = tt
  both m n k (r ∷ rs) a b = elim (Bool-cases r.is_true_scalar) [
    | inl scalar ↦ (b.0.0 scalar ∙ a.0 scalar, both m n k rs a.1 b.1)
    | inr shaped ↦ (b.0.1 shaped, both m n k rs a.1 b.1)
  ]

  -- The struct and the slots of a plan together
  pub plan-Packed :
      (m : Memory) (hi : ℕ) (rs : List PlanRow)
      → Chain 0 rs
      → (EndBy Value struct_bytes asarray values image) hi rs
      → All (Fits Value struct_bytes asarray values image) rs
      → Packed m hi rs (
          scalars_into m (emit 0 rs) (emit 0 rs).scalar_indices >>= λ n.
          (fill Value struct_bytes asarray values image) n (emit 0 rs))
  plan-Packed m hi rs chain ends fits =
      let first = pack_scalars-Struct m hi rs (emit 0 rs).scalar_indices refl chain ends fits in
      let second =
        (fill-Filled Value struct_bytes asarray values image) first.result 0 0 hi rs chain ends
          fits in
      record {
        result = second.result;
        returned =
            ap (λ r. r >>= λ n. (fill Value struct_bytes asarray values image) n (emit 0 rs))
              first.returned
            ∙ second.returned;
        keeps = λ i h. second.keeps i h ∙ first.keeps i h;
        reads = both m first.result second.result rs first.scalars second.shaped;
      }
