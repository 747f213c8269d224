-- ===== src/Registry/Maps.antt =====
-- Entries that are set and set back.
use quorin.Base.{
  ℕ, ◌≡◌, refl, sym, ◌∙◌, ap, fun_ext, arith, false, List, [], ◌∷◌, ◌==◌, contains, Bool-cases,
  ==→eq, inl, inr,
}
use quorin.Registry.{Name, set_at, sadd, srem}

pub set_at_back {ℓ} :
    {A : Type ℓ} (f : ℕ → A) (k : ℕ) (v w : A) → f k ≡ w → set_at (set_at f k v) k w ≡ f
set_at_back f k v w e = fun_ext λ x. elim (Bool-cases (x == k)) [
  | inl y ↦ rw y (sym e ∙ sym (ap f (==→eq x k y)))
  | inr n ↦ rw n refl
]

srem_absent : (n : Name) (q : List Name) → contains n q ≡ false → srem n q ≡ q
unfolding srem
srem_absent n [] h = refl
srem_absent n (m ∷ q) h = let rest = srem_absent n q (ground arith) in rw (rest) (ground arith)

pub srem-sadd : (n : Name) (q : List Name) → contains n q ≡ false → srem n (sadd n q) ≡ q
unfolding srem sadd
srem-sadd n q h = rw h (ground (arith, srem_absent n q h))
