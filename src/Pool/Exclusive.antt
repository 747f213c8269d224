-- ===== src/Pool/Exclusive.antt =====
-- Who holds a buffer, and what is in it.
use quorin.Base.{
  ℕ, ◌≤◌, ◌<◌, ◌≡◌, refl, subst, arith, true, false, ◌||◌, some, List, [], ◌∷◌, ◌++◌, ◌==◌, length,
  replicate, length-replicate, length-append, contains, contains-append, is_set, Bool-cases, ◌⊎◌,
  inl, inr, ==→eq, ==_self,
}
use quorin.Pool.{Pool, enter, exit}

-- `out` are the buffers that are checked out: none of them is in the pool, or twice in their list.
-- With `zero_on_return`, the buffers in the pool hold zeros.
pub record IsPool (out : List ℕ) (p : Pool) : Type 0 where
  pub bounded : length p.buffers ≤ p.max_size
  pub idle_set : is_set p.buffers ≡ true
  pub out_set : is_set out ≡ true
  pub exclusive : (b : ℕ) → contains b p.buffers ≡ true → contains b out ≡ false
  pub idle_known : (b : ℕ) → contains b p.buffers ≡ true → b < p.fresh
  pub out_known : (b : ℕ) → contains b out ≡ true → b < p.fresh
  pub clean :
      (b : ℕ)
      → contains b p.buffers ≡ true
      → p.zero_on_return ≡ true
      → p.contents b ≡ replicate p.size 0
  pub sized :
      (b : ℕ) → (contains b p.buffers || contains b out) ≡ true → length (p.contents b) ≡ p.size

is_set-append_last :
    (xs : List ℕ) (b : ℕ) → is_set xs ≡ true → contains b xs ≡ false → is_set (xs ++ b ∷ []) ≡ true
is_set-append_last [] b h k = refl
is_set-append_last (x ∷ xs) b h k =
    let rest = is_set-append_last xs b in let more = contains-append x xs (b ∷ []) in ground arith

not_first :
    (b : ℕ) (bs : List ℕ) (c : ℕ) → is_set (b ∷ bs) ≡ true → contains c bs ≡ true → (c == b) ≡ false
not_first b bs c set h = elim (Bool-cases (c == b)) [
  | inl y ↦
      let here : contains b bs ≡ true = subst (λ k. contains k bs ≡ true) (==→eq c b y) h in
      ground arith
  | inr n ↦ n
]

-- A checked-out buffer, and what `__enter__` promises of it
pub record Entered (out : List ℕ) (p : Pool) (q : Pool) (b : ℕ) : Type 0 where
  pub valid : IsPool (b ∷ out) q
  pub exclusively : contains b out ≡ false
  pub zeros : p.zero_on_return ≡ true → q.contents b ≡ replicate q.size 0
  pub others : (c : ℕ) → contains c out ≡ true → q.contents c ≡ p.contents c

List-cases : (xs : List ℕ) → (xs ≡ []) ⊎ ((b : ℕ) × (bs : List ℕ) × (xs ≡ b ∷ bs))
List-cases [] = inl refl
List-cases (x ∷ xs) = inr (x, xs, refl)

-- Entering a checkout hands out a buffer of the right size that no other checkout holds, with or
-- without a buffer in the pool; with zero_on_return it holds zeros. What the other callers hold is as
-- before.
pub enter-Entered : (out : List ℕ) (p : Pool) → IsPool out p → Entered out p (enter p).0 (enter p).1
unfolding enter
enter-Entered out p inv = elim (List-cases p.buffers) [
  | inl e ↦
      let i = rw e at inv in
      rw e (record {
        valid = record {
          bounded = omega arith;
          idle_set = refl;
          out_set = let known = inv.out_known p.fresh in ground arith;
          exclusive = λ c h. cc;
          idle_known = λ c h. cc;
          out_known = λ c h. let known = inv.out_known c in ground arith;
          clean = λ c h. cc;
          sized = λ c h.
              let old = inv.sized c in
              let zeros = length-replicate {A = ℕ} p.size 0 in ground arith;
        };
        exclusively = let known = inv.out_known p.fresh in ground arith;
        zeros = λ h. rw (==_self p.fresh) refl;
        others = λ c h. let known = inv.out_known c in ground arith;
      })
  | inr (b, bs, e) ↦
      let i = rw e at inv in
      let apart = i.exclusive b in
      let known = i.idle_known b in
      rw e (record {
        valid = record {
          bounded = omega (arith, i.bounded);
          idle_set = let set = i.idle_set in ground arith;
          out_set = let set = i.out_set in ground arith;
          exclusive = λ c h.
              let old = i.exclusive c in
              let set = i.idle_set in let again = not_first b bs c set h in ground arith;
          idle_known = λ c h. let old = i.idle_known c in ground arith;
          out_known = λ c h. let old = i.out_known c in ground arith;
          clean = λ c h. let old = i.clean c in ground arith;
          sized = λ c h. let old = i.sized c in ground arith;
        };
        exclusively = ground arith;
        zeros = λ h. let old = i.clean b in ground arith;
        others = λ c h. refl;
      })
]

-- The pool `q` after a checkout was left in `p`
pub record Left (out : List ℕ) (p : Pool) (q : Pool) : Type 0 where
  pub valid : IsPool out q
  pub others : (c : ℕ) → contains c out ≡ true → q.contents c ≡ p.contents c

-- Leaving a checkout keeps the pool within max_size, its buffers clean with zero_on_return and apart
-- from those that are still checked out, whose contents are as before.
pub exit-Left :
    (out : List ℕ) (p : Pool) (b : ℕ) → IsPool (b ∷ out) p → Left out p (exit p (some b)).0
unfolding exit
exit-Left out p b inv =
    let apart = inv.exclusive b in
    let room = length-append p.buffers (b ∷ []) in
    let size = inv.sized b in
    record {
      valid = record {
        bounded = let fits = inv.bounded in ground arith;
        idle_set = let set = is_set-append_last p.buffers b inv.idle_set in ground arith;
        out_set = let set = inv.out_set in ground arith;
        exclusive = λ c h.
            let old = inv.exclusive c in
            let added = contains-append c p.buffers (b ∷ []) in
            elim (Bool-cases (contains c out)) [
              | inl y ↦ let again = not_first b out c inv.out_set y in ground arith
              | inr n ↦ n
            ];
        idle_known = λ c h.
            let old = inv.idle_known c in
            let mine = inv.out_known b in
            let added = contains-append c p.buffers (b ∷ []) in ground arith;
        out_known = λ c h. let old = inv.out_known c in ground arith;
        clean = λ c h on.
            let old = inv.clean c in
            let added = contains-append c p.buffers (b ∷ []) in ground arith;
        sized = λ c h.
            let old = inv.sized c in
            let added = contains-append c p.buffers (b ∷ []) in
            let zeros : length (replicate (length (p.contents b)) 0) ≡ length (p.contents b) =
              length-replicate {A = ℕ} (length (p.contents b)) 0 in
            ground arith;
      };
      others = λ c h. let again = not_first b out c inv.out_set h in ground arith;
    }
