-- ===== src/Result.antt =====
-- Exceptions as values: the exception classes that the modelled functions raise, by their class.
use quorin.Base.{◌≡◌, refl, Bool, true, false}

pub data Error : Type 0 where
  value_error capacity_exceeded string_pool_exhausted segment_not_found schema_crc_mismatch
        key_error index_error struct_error conversion_error redis_error write_sync_timeout
        entity_not_found :
      Error

pub data Result {ℓ} (Value : Type ℓ) : Type ℓ where
  ok : Value → Result Value
  err : Error → Result Value

-- `if bad: raise e`
abbrev pub raise_if : Bool → Error → Result (Unit {0})
raise_if true e = err e
raise_if false e = ok tt

infixl 5 ◌>>=◌
abbrev pub ◌>>=◌ {ℓ κ} : {V : Type ℓ} {W : Type κ} → Result V → (V → Result W) → Result W
err e >>= next = err e
ok v >>= next = next v

infixl 5 ◌>>◌
abbrev pub ◌>>◌ {ℓ} : {W : Type ℓ} → Result (Unit {0}) → Result W → Result W
err e >> next = err e
ok v >> next = next

-- Inversion of a guard that was passed.
pub raise_if-eq-ok {ℓ} :
    {B : Type ℓ} (b : Bool) (e : Error) (k : Result B) {r : B}
    → (raise_if b e >> k) ≡ ok r
    → (b ≡ false) × (k ≡ ok r)
raise_if-eq-ok true e k h = cc
raise_if-eq-ok false e k h = (refl, h)

-- Inversion of two steps that both returned.
pub >>=-eq-ok {ℓ κ} :
    {V : Type ℓ} {W : Type κ} (m : Result V) (next : V → Result W) {w : W}
    → (m >>= next) ≡ ok w
    → (v : V) × (m ≡ ok v) × (next v ≡ ok w)
>>=-eq-ok (err e) next h = cc
>>=-eq-ok (ok v) next h = (v, refl, h)
