-- ===== src/Text.antt =====
-- Texts as lists of code points, and `str(n)` of a natural number.
pub mod Decimal
use Prim.Native.Char.{code}
use Prim.Native.String.{String}
use keystone_crypto.Prelude.{ℕ, ◌+◌, List, [], ◌∷◌, map, ◌==◌, if◌then◌else◌}
use keystone_crypto.Digits.{digits, num_digits}

abbrev pub Str : Type 0
Str = List ℕ

abbrev pub codes : String → Str
codes String.[] = []
codes (String.◌∷◌ c s) = code c ∷ codes s

-- `str(n)`
unfoldable pub decimal : ℕ → Str
decimal n = if n == 0 then b'0' ∷ [] else map (λ d. d + b'0') (digits 10 (num_digits 10 n) n)
