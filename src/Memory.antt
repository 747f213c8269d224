-- ===== src/Memory.antt =====
-- The bytes of a shared-memory segment by address, and the `struct` codes `<I` and `<Q`.
-- An address outside the mapping is not distinguished here.
pub mod Frame
pub mod Order
use quorin.Base.{ℕ, zero, suc, ◌+◌, ◌*◌, ◌/◌, ◌%◌, List, [], ◌∷◌, ◌==◌, if◌then◌else◌}

abbrev pub Memory : Type 0
Memory = ℕ → ℕ

-- `buf[a : a + n]`
unfoldable pub read_bytes : Memory → ℕ → ℕ → List ℕ
read_bytes m a zero = []
read_bytes m a (suc n) = m a ∷ read_bytes m (suc a) n

-- `buf[a : a + len(bs)] = bs`
unfoldable pub write_bytes : Memory → ℕ → List ℕ → Memory
write_bytes m a [] i = m i
write_bytes m a (b ∷ bs) i = if i == a then b else write_bytes m (suc a) bs i

-- The little-endian bytes of a number, in a given width
unfoldable pub le_bytes : ℕ → ℕ → List ℕ
le_bytes zero v = []
le_bytes (suc n) v = v % 256 ∷ le_bytes n (v / 256)

unfoldable pub from_le : List ℕ → ℕ
from_le [] = 0
from_le (b ∷ bs) = b + 256 * from_le bs

-- `struct.unpack_from("<I", buf, a)`, `struct.unpack_from("<Q", buf, a)`
unfoldable pub read_u32 : Memory → ℕ → ℕ
read_u32 m a = from_le (read_bytes m a 4)

unfoldable pub read_u64 : Memory → ℕ → ℕ
read_u64 m a = from_le (read_bytes m a 8)

-- `struct.pack_into`
unfoldable pub write_u32 : Memory → ℕ → ℕ → Memory
write_u32 m a v = write_bytes m a (le_bytes 4 v)

unfoldable pub write_u64 : Memory → ℕ → ℕ → Memory
write_u64 m a v = write_bytes m a (le_bytes 8 v)
