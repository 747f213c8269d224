-- ===== src/Pool/Tests.antt =====
-- The pool theorems at a pool of two buffers of three floats.
use quorin.Base.{◌*◌, ◌≡◌, refl, true, []}
use quorin.Result.{ok}
use quorin.Pool.{Pool, new_pool, buffer_pool, batch_buffer_pool, enter}
use quorin.Pool.Exclusive.{IsPool, Entered, enter-Entered}
use quorin.Pool.New.{buffer_pool-IsPool}

abbrev two_buffers : Pool
two_buffers = new_pool 3 2 true

built : buffer_pool 3 2 true ≡ ok two_buffers
unfolding buffer_pool
built = refl

batch_built : batch_buffer_pool 3 4 2 true ≡ ok (new_pool (4 * 3) 2 true)
unfolding batch_buffer_pool
batch_built = refl

two_buffers-IsPool : IsPool [] two_buffers
two_buffers-IsPool = (buffer_pool-IsPool 3 4 2 true built batch_built).0.0

enter-Entered_example : Entered [] two_buffers (enter two_buffers).0 (enter two_buffers).1
enter-Entered_example = enter-Entered [] two_buffers two_buffers-IsPool
