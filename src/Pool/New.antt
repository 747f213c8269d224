-- ===== src/Pool/New.antt =====
-- A new pool.
use quorin.Base.{
  ℕ, zero, suc, ◌+◌, ◌*◌, ◌≤◌, ◌<◌, ◌≡◌, refl, ap, subst, arith, Bool, true, [], ltb, length,
  length-replicate, contains, is_set,
}
use quorin.Result.{ok, value_error, raise_if-eq-ok}
use quorin.Pool.{Pool, identities, new_pool, buffer_pool, batch_buffer_pool}
use quorin.Pool.Exclusive.{IsPool}

contains-identities : (b n k : ℕ) → contains b (identities n k) ≡ true → (n ≤ b) × (b < n + k)
unfolding identities
contains-identities b n zero h = cc
contains-identities b n (suc k) h = let rest = contains-identities b (suc n) k in ground arith

is_set-identities : (n k : ℕ) → is_set (identities n k) ≡ true
unfolding identities
is_set-identities n zero = refl
is_set-identities n (suc k) =
    let rest = is_set-identities (suc n) k in
    let later = contains-identities n (suc n) k in ground arith

length-identities : (n k : ℕ) → length (identities n k) ≡ k
unfolding identities
length-identities n zero = refl
length-identities n (suc k) = ap suc (length-identities (suc n) k)

new_pool-IsPool : (size max_size : ℕ) (zeroing : Bool) → IsPool [] (new_pool size max_size zeroing)
new_pool-IsPool size max_size zeroing = record {
  bounded = omega (arith, length-identities 0 max_size);
  idle_set = is_set-identities 0 max_size;
  out_set = refl;
  exclusive = λ b h. refl;
  idle_known = λ b h. omega (arith, contains-identities b 0 max_size h);
  out_known = λ b h. cc;
  clean = λ b h on. refl;
  sized = λ b h. length-replicate {A = ℕ} size 0;
}

-- A pool that either constructor returns holds max_size clean buffers of its size, which is the
-- element count, or batch_size times the element count.
pub buffer_pool-IsPool :
    (element_count batch_size max_size : ℕ) (zeroing : Bool) {p q : Pool}
    → buffer_pool element_count max_size zeroing ≡ ok p
    → batch_buffer_pool element_count batch_size max_size zeroing ≡ ok q
    → (IsPool [] p × (p.size ≡ element_count) × (length p.buffers ≡ max_size))
      × (IsPool [] q × (q.size ≡ batch_size * element_count) × (length q.buffers ≡ max_size))
unfolding buffer_pool batch_buffer_pool
buffer_pool-IsPool element_count batch_size max_size zeroing {p} {q} h k =
    let one = new_pool element_count max_size zeroing in
    let many = new_pool (batch_size * element_count) max_size zeroing in
    let (pos, h₁) = raise_if-eq-ok (ltb max_size 1) value_error (ok one) h in
    let (b_pos, k₁) = raise_if-eq-ok (ltb batch_size 1) value_error _ k in
    let (m_pos, k₂) = raise_if-eq-ok (ltb max_size 1) value_error (ok many) k₁ in
    let e : one ≡ p = cc in
    let f : many ≡ q = cc in
    (
      subst (λ r. IsPool [] r × (r.size ≡ element_count) × (length r.buffers ≡ max_size)) e
          (new_pool-IsPool element_count max_size zeroing, refl, length-identities 0 max_size),
      subst
          (λ r. IsPool [] r × (r.size ≡ batch_size * element_count) × (length r.buffers ≡ max_size))
          f
          (
            new_pool-IsPool (batch_size * element_count) max_size zeroing,
            refl,
            length-identities 0 max_size,
          ),
    )
