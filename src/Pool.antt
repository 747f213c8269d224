-- ===== src/Pool.antt =====
-- quorin/pool.py: `BufferPool`, `BatchBufferPool` and their checkouts. A buffer is a number, its
-- identity; what it holds is its list of floats, each as the number of its bit pattern (0 is 0.0). The
-- two classes differ in the size of a buffer, in the defaults and in the checks of the constructor.
pub mod Exclusive
pub mod New
mod Tests
use quorin.Base.{
  ℕ, zero, suc, ◌+◌, ◌*◌, Bool, Option, none, some, List, [], ◌∷◌, ◌++◌, ltb, ◌==◌, length,
  replicate, if◌then◌else◌,
}
use quorin.Result.{Result, ok, value_error, ◌>>◌, raise_if}

pub record Pool : Type 0 where
  pub buffers : List ℕ
  pub size : ℕ
  pub max_size : ℕ
  pub zero_on_return : Bool
  pub misses : ℕ
  -- The memory: what each buffer holds, and the next buffer that is allocated
  pub contents : ℕ → List ℕ
  pub fresh : ℕ

-- The numbers from `n` on
unfoldable pub identities : ℕ → ℕ → List ℕ
identities n zero = []
identities n (suc k) = n ∷ identities (suc n) k

abbrev pub new_pool : ℕ → ℕ → Bool → Pool
new_pool size max_size zero_on_return = record {
  buffers = identities 0 max_size;
  size = size;
  max_size = max_size;
  zero_on_return = zero_on_return;
  misses = 0;
  contents = λ b. replicate size 0;
  fresh = max_size;
}

-- `BufferPool.__init__`
unfoldable pub buffer_pool : ℕ → ℕ → Bool → Result Pool
buffer_pool element_count max_size zero_on_return = do
  raise_if (ltb max_size 1) value_error
  ok (new_pool element_count max_size zero_on_return)

-- `BatchBufferPool.__init__`
unfoldable pub batch_buffer_pool : ℕ → ℕ → ℕ → Bool → Result Pool
batch_buffer_pool element_count batch_size max_size zero_on_return = do
  raise_if (ltb batch_size 1) value_error
  raise_if (ltb max_size 1) value_error
  ok (new_pool (batch_size * element_count) max_size zero_on_return)

-- A `_Checkout`: the buffer that it holds
abbrev pub Checkout : Type 0
Checkout = Option ℕ

abbrev pub set_contents : (ℕ → List ℕ) → ℕ → List ℕ → ℕ → List ℕ
set_contents contents b values x = if x == b then values else contents x

-- `__enter__`: the buffer that it returns is the one that the checkout keeps.
unfoldable pub enter : Pool → Pool × ℕ
enter p = elim (p.buffers) [
  | [] ↦ (
    record p {
      misses = p.misses + 1;
      contents = set_contents p.contents p.fresh (replicate p.size 0);
      fresh = p.fresh + 1;
    },
    p.fresh,
  )
  | b ∷ bs ↦ (record p { buffers = bs }, b)
]

-- `__exit__`
unfoldable pub exit : Pool → Checkout → Pool × Checkout
exit p none = (p, none)
exit p (some b) =
    let zeroed =
      if p.zero_on_return
      then record p { contents = set_contents p.contents b (replicate (length (p.contents b)) 0) }
      else p in
    (
      if ltb (length zeroed.buffers) zeroed.max_size
          then record zeroed { buffers = zeroed.buffers ++ b ∷ [] }
          else zeroed,
      none,
    )
