-- ===== src/SecretBytes/Hex.antt =====
-- `SecretBytes.hex` and `from_hex` (src/keystonecrypto/secret_bytes.py).
use keystone_crypto.Prelude.{
  ℕ, ◌+◌, ◌*◌, ◌/◌, ◌%◌, ◌<◌, ◌≡◌, ◌≢◌, refl, ap, ◌∙◌, [], ◌∷◌, false, some, arith,
}
use keystone_crypto.Errors.{ok, if_false}
use keystone_crypto.Bytes.{Bytes, AreBytes, not_empty}
use keystone_crypto.Text.{Str}
use keystone_crypto.SecretBytes.{
  SecretBytes, new, hex_digit, hex_char, is_ascii_space, push_pair, bytes_fromhex, bytes_hex, hex,
  from_hex,
}

hex_digit-hex_char : (d : ℕ) → d < 16 → hex_digit (hex_char d) ≡ some d
unfolding hex_digit
hex_digit-hex_char d h = ground arith

hex_char_not_space : (d : ℕ) → d < 16 → is_ascii_space (hex_char d) ≡ false
unfolding is_ascii_space
hex_char_not_space d h = ground arith

bytes_fromhex_pair :
    (c d : ℕ) (text : Str)
    → is_ascii_space c ≡ false
    → bytes_fromhex (c ∷ d ∷ text) ≡ push_pair (hex_digit c) (hex_digit d) (bytes_fromhex text)
unfolding bytes_fromhex
bytes_fromhex_pair c d text h = rw h

bytes_fromhex-bytes_hex : (b : Bytes) → AreBytes b → bytes_fromhex (bytes_hex b) ≡ ok b
unfolding bytes_hex push_pair
bytes_fromhex-bytes_hex [] h = unfold bytes_fromhex in refl
bytes_fromhex-bytes_hex (x ∷ b) (hx, hb) =
    bytes_fromhex_pair (hex_char (x / 16)) (hex_char (x % 16)) (bytes_hex b)
      (hex_char_not_space (x / 16) (omega arith))
    ∙ rw
        (
          hex_digit-hex_char (x / 16) (omega arith),
          hex_digit-hex_char (x % 16) (omega arith),
          bytes_fromhex-bytes_hex b hb,
        )
        (ap (λ (t : ℕ). ok (t ∷ b)) {x = x / 16 * 16 + x % 16} {y = x} (omega arith))

-- Reading the hexadecimal print of a secret that is not empty gives that secret.
pub from_hex-hex : (s : SecretBytes) → AreBytes s.buf → s.buf ≢ [] → from_hex (hex s) ≡ ok s
unfolding from_hex hex new
from_hex-hex s h ne = rw (bytes_fromhex-bytes_hex s.buf h) (if_false _ _ (not_empty s.buf ne))
