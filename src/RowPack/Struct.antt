-- ===== src/RowPack/Struct.antt =====
-- What the struct writes, for rows that lie one behind another.
use quorin.Base.{
  ℕ, ◌+◌, ◌-◌, ◌≤◌, ◌<◌, ◌≡◌, ◌⊎◌, inl, inr, refl, ◌∙◌, ap, subst, arith, max, Bool, true, false,
  Option, some, List, [], ◌∷◌, map, ltb, length, length-replicate, get_elem?, replicate, All,
  Bool-cases,
}
use quorin.Result.{Result, ok, ◌>>=◌}
use quorin.Memory.{Memory, read_bytes, write_bytes}
use quorin.Memory.Frame.{write_bytes-outside, read_bytes-write_bytes, read_bytes_congr}
use quorin.Assembly.{item_size}
use quorin.RowPack.{
  PlanRow, Part, pad, code, Emitted, pad_gap, width, add_row, emit, pack_into, flat_bytes,
}

-- The rows start at `lo` or later, each at or behind the end of the one before it.
abbrev pub Chain : ℕ → List PlanRow → Type 0
Chain lo [] = Unit
Chain lo (r ∷ rs) = (lo ≤ r.byte_off) × Chain (r.byte_off + r.byte_cnt) rs

pub Chain-le : {lo hi : ℕ} (rs : List PlanRow) → lo ≤ hi → Chain hi rs → Chain lo rs
Chain-le [] le c = tt
Chain-le (r ∷ rs) le c = (omega arith, c.1)

-- Outside an extent, nothing has changed.
abbrev pub Keeps : ℕ → ℕ → Memory → Memory → Type 0
Keeps lo hi m n = (i : ℕ) → (i < lo) ⊎ (hi ≤ i) → n i ≡ m i

pub Keeps-trans :
    {lo hi mid : ℕ} {m n k : Memory}
    → lo ≤ mid
    → Keeps lo hi m n
    → Keeps mid hi n k
    → Keeps lo hi m k
Keeps-trans le p q i (inl h) = q i (inl (omega arith)) ∙ p i (inl h)
Keeps-trans le p q i (inr h) = q i (inr h) ∙ p i (inr h)

pub write_bytes-Keeps :
    (m : Memory) (a n hi : ℕ) (bs : List ℕ)
    → length bs ≡ n
    → a + n ≤ hi
    → Keeps a hi m (write_bytes m a bs)
write_bytes-Keeps m a n hi bs e le i (inl h) = write_bytes-outside m a bs i (inl h)
write_bytes-Keeps m a n hi bs e le i (inr h) = write_bytes-outside m a bs i (inr (omega (arith, e)))

-- Later writes begin behind an extent.
pub read-Keeps :
    {m n : Memory} {lo hi : ℕ} (a k : ℕ)
    → a + k ≤ lo
    → Keeps lo hi m n
    → read_bytes n a k ≡ read_bytes m a k
read-Keeps {m} {n} a k le keeps = read_bytes_congr n m a k (λ i p q. keeps i (inl (omega arith)))

module _ (Value : Type 0) (struct_bytes : ℕ → Value → Result (List ℕ))
    (asarray : ℕ → Value → Result (List (List ℕ))) where
  -- The bytes that a row has for a value
  unfoldable pub convert : ℕ → ℕ → Bool → Value → Result (List ℕ)
  convert d n true v = struct_bytes d v
  convert d n false v = flat_bytes Value struct_bytes asarray d n v

  -- `image` gives the bytes that are meant for a row.
  module _ (values : List Value) (image : PlanRow → List ℕ) where
    pub record Fits (r : PlanRow) : Type 0 where
      pub value : Value
      pub there : get_elem? values r.value_idx ≡ some value
      pub converts : convert r.dtype r.elem_cnt r.is_true_scalar value ≡ ok (image r)
      pub wide : length (image r) ≡ r.byte_cnt
      pub item : r.is_true_scalar ≡ true → item_size r.dtype ≡ r.byte_cnt

    abbrev pub Reads : Memory → PlanRow → Type 0
    Reads m r = read_bytes m r.byte_off r.byte_cnt ≡ image r

    abbrev pub EndBy : ℕ → List PlanRow → Type 0
    EndBy hi = All (λ r. r.byte_off + r.byte_cnt ≤ hi)

    pub record Struct (m : Memory) (c hi : ℕ) (rs : List PlanRow) (packed : Result Memory)
        : Type 0 where
      pub result : Memory
      pub returned : packed ≡ ok result
      pub keeps : Keeps c hi m result
      pub scalars : All (λ r. r.is_true_scalar ≡ true → Reads result r) rs

    abbrev pack : Memory → ℕ → Emitted → Result Memory
    pack m c e =
        pack_into Value struct_bytes asarray m c e.fmt_parts
          (map (get_elem? values) e.scalar_indices)

    -- The pad before a row
    pad_gap-Keeps :
        (m : Memory) (c off : ℕ) (ps : List Part) (vs : List (Option Value))
        → c ≤ off
        → (n : Memory) × Keeps c off m n
          × (pack_into Value struct_bytes asarray m c (pad_gap c off ps) vs
              ≡ pack_into Value struct_bytes asarray n off ps vs)
    unfolding pack_into
    pad_gap-Keeps m c off ps vs le = elim (Bool-cases (ltb c off)) [
      | inl gap ↦
          let n = write_bytes m c (replicate (off - c) 0) in
          let there : c + (off - c) ≡ off = omega arith in
          (
            n,
            write_bytes-Keeps m c (off - c) off (replicate (off - c) 0)
                (length-replicate (off - c) 0) (omega arith),
            rw gap (ap (λ a. pack_into Value struct_bytes asarray n a ps vs) there),
          )
      | inr tight ↦
          let here : c ≡ off = ground arith in
          (m, λ i h. refl, rw tight (ap (λ a. pack_into Value struct_bytes asarray m a ps vs) here))
    ]

    abbrev behind : Memory → PlanRow → List ℕ → Emitted → Result Memory
    behind n r ws rest = pack (write_bytes n r.byte_off ws) (r.byte_off + r.byte_cnt) rest

    -- The pad before a row, the bytes of the row, and how the struct goes on
    record Stepped (m : Memory) (c : ℕ) (r : PlanRow) (b : Bool) (rest : Emitted) : Type 0 where
      padded : Memory
      written : List ℕ
      keeps : Keeps c r.byte_off m padded
      wide : length written ≡ r.byte_cnt
      image_e : b ≡ true → written ≡ image r
      steps : pack m c (add_row c r b rest) ≡ behind padded r written rest

    scalar_bytes :
        (r : PlanRow) (f : Fits r)
        → r.is_true_scalar ≡ true
        → struct_bytes r.dtype f.value ≡ ok (image r)
    unfolding convert
    scalar_bytes r f e =
        subst (λ b. convert r.dtype r.elem_cnt b f.value ≡ ok (image r)) e f.converts

    struct_row :
        (m : Memory) (c : ℕ) (r : PlanRow) (b : Bool) (rest : Emitted)
        → c ≤ r.byte_off
        → r.is_true_scalar ≡ b
        → Fits r
        → Stepped m c r b rest
    unfolding add_row pack_into
    struct_row m c r true rest le e f =
        let args = map (get_elem? values) rest.scalar_indices in
        let (n, keeps, gap) =
          pad_gap-Keeps m c r.byte_off (code r.dtype ∷ rest.fmt_parts)
            (get_elem? values r.value_idx ∷ args) le in
        record {
          padded = n;
          written = image r;
          keeps = keeps;
          wide = f.wide;
          image_e = λ h. refl;
          steps =
              gap
              ∙ ap
                  (λ o.
                    pack_into Value struct_bytes asarray n r.byte_off
                      (code r.dtype ∷ rest.fmt_parts) (o ∷ args))
                  f.there
              ∙ ap
                  (λ res. res >>= λ ws.
                    pack_into Value struct_bytes asarray (write_bytes n r.byte_off ws)
                      (r.byte_off + item_size r.dtype) rest.fmt_parts args)
                  (scalar_bytes r f e)
              ∙ ap
                  (λ w.
                    pack_into Value struct_bytes asarray (write_bytes n r.byte_off (image r))
                      (r.byte_off + w) rest.fmt_parts args)
                  (f.item e);
        }
    struct_row m c r false rest le e f =
        let args = map (get_elem? values) rest.scalar_indices in
        let (n, keeps, gap) =
          pad_gap-Keeps m c r.byte_off (pad r.byte_cnt ∷ rest.fmt_parts) args le in
        record {
          padded = n;
          written = replicate r.byte_cnt 0;
          keeps = keeps;
          wide = length-replicate r.byte_cnt 0;
          image_e = λ h. cc;
          steps = gap;
        }

    width-eq : (r : PlanRow) (b : Bool) → r.is_true_scalar ≡ b → Fits r → width r b ≡ r.byte_cnt
    unfolding width
    width-eq r true e f = f.item e
    width-eq r false e f = refl

    cursor :
        (r : PlanRow) (c : ℕ) (rs : List PlanRow)
        → c ≤ r.byte_off
        → Fits r
        → emit (max c r.byte_off + width r r.is_true_scalar) rs ≡ emit (r.byte_off + r.byte_cnt) rs
    cursor r c rs le f =
        let wide = width-eq r r.is_true_scalar refl f in ap (λ a. emit a rs) (omega arith)

    -- A pad, a row and what lies behind it stay inside of an extent.
    pub rows_Keeps :
        {c hi off next : ℕ} (m n k l : Memory)
        → c ≤ off
        → off ≤ next
        → next ≤ hi
        → Keeps c off m n
        → Keeps off hi n k
        → Keeps next hi k l
        → Keeps c hi m l
    rows_Keeps m n k l le up end p q s i (inl h) =
        s i (inl (omega arith)) ∙ q i (inl (omega arith)) ∙ p i (inl h)
    rows_Keeps m n k l le up end p q s i (inr h) =
        s i (inr h) ∙ q i (inr h) ∙ p i (inr (omega arith))

    -- The struct writes the scalars, and nothing outside of the extent.
    pub pack-Struct :
        (m : Memory) (c hi : ℕ) (rs : List PlanRow)
        → c ≤ hi
        → Chain c rs
        → EndBy hi rs
        → All Fits rs
        → Struct m c hi rs (pack m c (emit c rs))
    unfolding emit pack_into
    pack-Struct m c hi [] le chain ends fits = record {
      result = m;
      returned = refl;
      keeps = λ i h. refl;
      scalars = tt;
    }
    pack-Struct m c hi (r ∷ rs) le chain ends fits =
        let next = r.byte_off + r.byte_cnt in
        let f = fits.0 in
        let step = struct_row m c r r.is_true_scalar (emit next rs) chain.0 refl f in
        let m2 = write_bytes step.padded r.byte_off step.written in
        let rest = pack-Struct m2 next hi rs ends.0 chain.1 ends.1 fits.1 in
        let kept =
          write_bytes-Keeps step.padded r.byte_off r.byte_cnt hi step.written step.wide ends.0 in
        record {
          result = rest.result;
          returned =
              ap (λ e. pack m c (add_row c r r.is_true_scalar e)) (cursor r c rs chain.0 f)
              ∙ step.steps
              ∙ rest.returned;
          keeps =
              rows_Keeps m step.padded m2 rest.result chain.0 (omega arith) ends.0 step.keeps kept
                rest.keeps;
          scalars = (
            λ scalar.
                read-Keeps r.byte_off r.byte_cnt (omega arith) rest.keeps
                ∙ read_bytes-write_bytes step.padded r.byte_off step.written r.byte_cnt step.wide
                ∙ step.image_e scalar,
            rest.scalars,
          );
        }
