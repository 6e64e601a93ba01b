-- ===== src/Base58.antt =====
-- src/keystonecrypto/derivation.py: `_b58encode`.
pub mod RoundTrip
pub mod Minimal
pub mod Decode
pub mod Rounds
pub mod Injective
use keystone_crypto.Prelude.{
  ℕ, zero, suc, ◌+◌, ◌/◌, ◌%◌, List, [], ◌∷◌, ◌++◌, Option, none, some, get_elem?, ◌==◌,
  if◌then◌else◌, take, reverse,
}
use keystone_crypto.Errors.{Error, Result, ok, err, ◌>>=◌}
use keystone_crypto.Bytes.{Bytes, from_bytes, index}
use keystone_crypto.Text.{Str, codes}

unfoldable pub b58_alphabet : Bytes
b58_alphabet = codes "123456789ABCDEFGHJKLMNPQRSTUVWXYZabcdefghijkmnopqrstuvwxyz"

-- `while n: n, r = divmod(n, 58); out.append(_B58_ALPHABET[r])`; the number falls, so `n` rounds are
-- enough.
unfoldable pub digit_loop : ℕ → ℕ → Bytes → Result Bytes
digit_loop zero n out = ok out
digit_loop (suc fuel) n out =
    let more = (do c ← index b58_alphabet (n % 58); digit_loop fuel (n / 58) (out ++ c ∷ [])) in
    if n == 0 then ok out else more

-- `for b in data: if b == 0: out.append(_B58_ALPHABET[0]) else: break`
unfoldable pub zero_loop : Bytes → Bytes → Result Bytes
zero_loop [] out = ok out
zero_loop (b ∷ data') out =
    let more = (do c ← index b58_alphabet 0; zero_loop data' (out ++ c ∷ [])) in
    if b == 0 then more else ok out

unfoldable pub b58encode : Bytes → Result Str
b58encode bytes =
    let n = from_bytes bytes in
    if n == 0
    then ok (take 1 b58_alphabet)
    else do digits ← digit_loop n n []; out ← zero_loop bytes digits; ok (reverse out)
