-- ===== src/Segment/Writes.antt =====
-- The order of the writes of a list, and the bytes that it leaves.
use quorin.Base.{
  ℕ, ◌+◌, ◌≤◌, ◌<◌, ◌≡◌, refl, sym, ◌∙◌, ap, fun_ext, arith, List, [], ◌∷◌, ◌++◌, length, All, ◌⊎◌,
  inl, inr,
}
use quorin.Memory.{Memory, read_bytes, write_bytes}
use quorin.Memory.Frame.{Apart, write_bytes-outside, length-read_bytes}
use quorin.Memory.Order.{outside_or_inside, write_bytes_comm, write_bytes-read_bytes}
use quorin.Segment.{Write, apply_writes}

pub apply_writes-append :
    (m : Memory) (xs ys : List Write)
    → apply_writes m (xs ++ ys) ≡ apply_writes (apply_writes m xs) ys
unfolding apply_writes
apply_writes-append m [] ys = refl
apply_writes-append m (w ∷ xs) ys = apply_writes-append (write_bytes m w.0 w.1) xs ys

pub apply_writes-cons :
    (m : Memory) (a : ℕ) (bs : List ℕ) (ws : List Write)
    → apply_writes m ((a, bs) ∷ ws) ≡ apply_writes (write_bytes m a bs) ws
unfolding apply_writes
apply_writes-cons m a bs ws = refl

-- A write that is apart from the others may come last.
pub apply_writes-later :
    (m : Memory) (a : ℕ) (bs : List ℕ) (ws : List Write)
    → All (λ w. Apart w.0 (length w.1) a (length bs)) ws
    → apply_writes (write_bytes m a bs) ws ≡ write_bytes (apply_writes m ws) a bs
unfolding apply_writes
apply_writes-later m a bs [] h = refl
apply_writes-later m a bs (w ∷ ws) h =
    ap (λ n. apply_writes n ws) (write_bytes_comm m a bs w.0 w.1 (omega arith))
    ∙ apply_writes-later (write_bytes m w.0 w.1) a bs ws h.1

-- All writes stay inside an extent.
abbrev pub Inside : ℕ → ℕ → List Write → Type 0
Inside a n = All (λ w. (a ≤ w.0) × (w.0 + length w.1 ≤ a + n))

pub apply_writes-outside :
    (m : Memory) (a n : ℕ) (ws : List Write) (x : ℕ)
    → Inside a n ws
    → (x < a) ⊎ (a + n ≤ x)
    → apply_writes m ws x ≡ m x
unfolding apply_writes
apply_writes-outside m a n [] x h out = refl
apply_writes-outside m a n (w ∷ ws) x h out =
    apply_writes-outside (write_bytes m w.0 w.1) a n ws x h.1 out
    ∙ write_bytes-outside m w.0 w.1 x (omega arith)

-- Writes inside an extent amount to one write of what they leave there.
pub apply_writes-Inside :
    (m : Memory) (a n : ℕ) (ws : List Write)
    → Inside a n ws
    → write_bytes m a (read_bytes (apply_writes m ws) a n) ≡ apply_writes m ws
apply_writes-Inside m a n ws h = fun_ext λ x. elim (outside_or_inside a n x) [
  | inl out ↦
      let len = length-read_bytes (apply_writes m ws) a n in
      write_bytes-outside m a (read_bytes (apply_writes m ws) a n) x (omega (arith, len))
      ∙ sym (apply_writes-outside m a n ws x h out)
  | inr within ↦ write_bytes-read_bytes m (apply_writes m ws) a n x (within.0) (within.1)
]

pub All-append {ℓ κ} :
    {A : Type ℓ} (P : A → Type κ) (xs ys : List A) → All P xs → All P ys → All P (xs ++ ys)
All-append P [] ys h k = k
All-append P (x ∷ xs) ys h k = (h.0, All-append P xs ys h.1 k)

pub All-imp {ℓ κ μ} :
    {A : Type ℓ} (P : A → Type κ) (Q : A → Type μ) (f : (a : A) → P a → Q a) (xs : List A)
    → All P xs
    → All Q xs
All-imp P Q f [] h = tt
All-imp P Q f (x ∷ xs) h = (f x h.0, All-imp P Q f xs h.1)
