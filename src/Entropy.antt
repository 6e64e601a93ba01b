-- ===== src/Entropy.antt =====
-- src/keystonecrypto/entropy.py: sizes of entropy. The random source is a parameter.
pub mod Laws
use Prim.Native.Nat.{min, max}
use keystone_crypto.Prelude.{
  ℕ, zero, suc, ◌-◌, ◌/◌, ◌%◌, Bool, true, false, ◌||◌, List, [], ◌∷◌, ltb, ◌==◌, not,
  if◌then◌else◌,
}
use keystone_crypto.Errors.{Error, Result, ok, err, ◌>>=◌}
use keystone_crypto.Bytes.{Bytes, ℤ, pos, negsuc}
use keystone_crypto.SecretBytes.{SecretBytes, new}

abbrev pub strength_bits : List ℕ
strength_bits = 128 ∷ 160 ∷ 192 ∷ 224 ∷ 256 ∷ []

abbrev list_min : ℕ → List ℕ → ℕ
list_min m [] = m
list_min m (x ∷ xs) = list_min (min m x) xs

abbrev list_max : ℕ → List ℕ → ℕ
list_max m [] = m
list_max m (x ∷ xs) = list_max (max m x) xs

abbrev pub min_bits : ℕ
min_bits = list_min 128 strength_bits

abbrev pub max_bits : ℕ
max_bits = list_max 128 strength_bits

-- Python's `n % m` and `n // m`, which round down, and the comparisons with a number that is not
-- negative.
abbrev int_mod : ℤ → ℕ → ℕ
int_mod (pos n) m = n % m
int_mod (negsuc n) m = m - 1 - n % m

abbrev int_div : ℤ → ℕ → ℤ
int_div (pos n) m = pos (n / m)
int_div (negsuc n) m = negsuc (n / m)

abbrev below : ℤ → ℕ → Bool
below (pos n) m = ltb n m
below (negsuc n) m = true

abbrev above : ℤ → ℕ → Bool
above (pos n) m = ltb m n
above (negsuc n) m = false

-- `secrets.token_bytes(n)`; `token_bytes` is its answer in this call. It refuses a negative number.
abbrev draw : (ℕ → Bytes) → ℤ → Result Bytes
draw token_bytes (pos n) = ok (token_bytes n)
draw token_bytes (negsuc n) = err Error.value_error

unfoldable pub generate_entropy : (ℕ → Bytes) → ℤ → Result SecretBytes
generate_entropy token_bytes bits =
    if not (int_mod bits 8 == 0)
    then err Error.value_error
    else if below bits min_bits || above bits max_bits
    then err Error.value_error
    else do value ← draw token_bytes (int_div bits 8); new value
