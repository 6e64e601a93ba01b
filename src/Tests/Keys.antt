-- ===== src/Tests/Keys.antt =====
-- Runs of `secret_bytes.py`, `entropy.py`, `kdf.py` and of `unpack`.
use keystone_crypto.Prelude.{
  ℕ, ◌/◌, ◌⊎◌, ◌≡◌, refl, [], ◌∷◌, ◌++◌, true, length, length-replicate, replicate, take, some,
  arith,
}
use mathlib.Core.Logic.{◌↔◌}
use keystone_crypto.Digits.{value}
use keystone_crypto.Errors.{Error, ok, err}
use keystone_crypto.Bytes.{Bytes, AreBytes, pos, negsuc, byte, index, equal, unpack_i64}
use keystone_crypto.SecretBytes.{
  SecretBytes, Value, new, eq, hex, from_hex, zeroize, exit, finalize,
}
use keystone_crypto.SecretBytes.Hex.{from_hex-hex}
use keystone_crypto.SecretBytes.Zeroize.{zeroize-replicate, zeroize_idem, eq_iff}
use keystone_crypto.Entropy.{generate_entropy}
use keystone_crypto.Entropy.Laws.{IsEntropySize, generate_entropy_iff}
use keystone_crypto.Kdf.{new_params, derive_key, hash_with, for_testing}
use keystone_crypto.Kdf.Laws.{IsParams, new_params_iff, length-derive_key}
use keystone_crypto.Aead.{decrypt, as_key, or_decryption_error}
use keystone_crypto.Envelope.{
  UnpackedKeystore, unpack, unpack_kdf_params, unpack_plaintext, aad, magic,
}
use keystone_crypto.Envelope.Rejects.{Opened, unpack-Opened}
use keystone_crypto.Tests.Libraries.{toy_argon2, toy_argon2-IsArgon2, toy_aes}
use keystone_crypto.Tests.Setting.{params_with, sevens, nines, password, pw, key_for}

abbrev three : SecretBytes
three = record { buf = 0 ∷ 160 ∷ 255 ∷ [] }

three-AreBytes : AreBytes three.buf
three-AreBytes = ground arith

from_hex-hex_example : from_hex (hex three) ≡ ok three
from_hex-hex_example = from_hex-hex three three-AreBytes (λ e. cc)

zeroize-replicate_example : zeroize three ≡ record { buf = 0 ∷ 0 ∷ 0 ∷ [] }
zeroize-replicate_example = zeroize-replicate three

zeroize_idem_example :
    (zeroize (zeroize three) ≡ zeroize three)
    × (exit three ≡ zeroize three)
    × (finalize three ≡ zeroize three)
zeroize_idem_example = zeroize_idem three

eq_iff_example : (eq three (Value.secret pw) ≡ some true) ↔ (three.buf ≡ password)
eq_iff_example = eq_iff three pw

abbrev seventeen : SecretBytes
seventeen = record { buf = sevens 17 }

generate_entropy_iff_example :
    ((generate_entropy sevens (negsuc 159) ≡ ok seventeen) ↔ (
      (n : ℕ) × (negsuc 159 ≡ pos n)
      × IsEntropySize n
      × (seventeen ≡ record { buf = sevens (n / 8) })))
    × (((n : ℕ) × (negsuc 159 ≡ pos n) × IsEntropySize n)
        ⊎ (generate_entropy sevens (negsuc 159) ≡ err Error.value_error))
generate_entropy_iff_example =
    generate_entropy_iff sevens (λ n. length-replicate n 7) (negsuc 159) seventeen

-- 136 bits are made, though BIP-39 has no phrase for them.
made_136 : generate_entropy sevens (pos 136) ≡ ok seventeen
unfolding generate_entropy new
made_136 = refl

new_params_iff_example :
    (new_params (params_with 16) ≡ ok (params_with 16))
    ↔ (IsParams (params_with 16) × (params_with 16 ≡ params_with 16))
new_params_iff_example = new_params_iff (params_with 16) (params_with 16)

derived :
    derive_key toy_argon2 nines pw (params_with 16) (some (sevens 16))
    ≡ ok (record { buf = key_for 16 }, sevens 16)
unfolding derive_key hash_with new
derived = refl

length-derive_key_example :
    (length (key_for 16) ≡ 32) × (sevens 16 ≡ sevens 16) × (length (sevens 16) ≡ 16)
length-derive_key_example =
    length-derive_key toy_argon2 toy_argon2-IsArgon2 nines pw (params_with 16) (sevens 16)
      (record { buf = key_for 16 }) (sevens 16) derived

-- The keystore of the bytes 1, 2 and 3.
abbrev blob : Bytes
blob =
    magic
    ++ 1 ∷ 1 ∷ 0 ∷ 0 ∷ 0 ∷ 3 ∷ 0 ∷ 4 ∷ 0 ∷ 0 ∷ 0 ∷ 0 ∷ 0 ∷ 4 ∷ 0 ∷ 0 ∷ 0 ∷ 32 ∷ 0 ∷ 0 ∷ 0 ∷ 19 ∷ []
    ++ replicate 12 0
    ++ sevens 16
    ++ nines 12
    ++ 3 ∷ 1 ∷ 2 ∷ 3 ∷ 0 ∷ 0 ∷ 0 ∷ 0 ∷ 0 ∷ 0 ∷ 0 ∷ 77 ∷ 1 ∷ replicate 6 0
    ++ take 16 (key_for 16)

abbrev contents : UnpackedKeystore
contents = record {
  seed = record { buf = 1 ∷ 2 ∷ 3 ∷ [] };
  has_passphrase = true;
  created_at = pos 77;
}

opened : unpack toy_argon2 toy_aes blob pw ≡ ok contents
unfolding unpack unpack_kdf_params unpack_plaintext derive_key hash_with for_testing decrypt as_key
    or_decryption_error new aad byte index equal value unpack_i64
opened = refl

unpack-Opened_example : Opened toy_argon2 toy_aes blob pw contents
unpack-Opened_example = unpack-Opened toy_argon2 toy_aes blob pw contents opened
