-- ===== src/Aead.antt =====
-- src/keystonecrypto/aead.py: AES-256-GCM with associated data. The cipher is a parameter.
use keystone_crypto.Prelude.{
  ℕ, ◌+◌, ◌^◌, ◌<◌, ◌≡◌, ◌==◌, not, length, Option, none, some, if◌then◌else◌,
}
use keystone_crypto.Errors.{Error, Result, ok, err, ◌>>=◌}
use keystone_crypto.Bytes.{Bytes}
use keystone_crypto.SecretBytes.{SecretBytes}

abbrev pub nonce_len : ℕ
nonce_len = 12

abbrev pub key_len : ℕ
key_len = 32

-- `AESGCM(key).encrypt(nonce, plaintext, aad)` and `.decrypt(nonce, ciphertext, aad)`; `none` is
-- any exception of the latter.
pub record AesGcm : Type 0 where
  pub encrypt : Bytes → Bytes → Bytes → Bytes → Result Bytes
  pub decrypt : Bytes → Bytes → Bytes → Bytes → Option Bytes

-- What the `cryptography` package documents: data and associated data of less than
-- 2 ^ 31 bytes each are taken, a tag of 16 bytes is appended, and decryption under the same key, nonce and associated data gives it back.
pub record IsAesGcm (aes : AesGcm) : Type 0 where
  pub encrypts :
      (key nonce plain aad : Bytes)
      → length key ≡ key_len
      → length nonce ≡ nonce_len
      → length plain < 2 ^ 31
      → length aad < 2 ^ 31
      → (ct : Bytes) × (aes.encrypt key nonce plain aad ≡ ok ct)
        × (length ct ≡ length plain + 16)
        × (aes.decrypt key nonce ct aad ≡ some plain)

unfoldable pub as_key : SecretBytes → Result Bytes
as_key key = if not (length key.buf == key_len) then err Error.value_error else ok key.buf

unfoldable pub or_decryption_error : Option Bytes → Result Bytes
or_decryption_error none = err Error.keystore_decryption
or_decryption_error (some plaintext) = ok plaintext

module _ (aes : AesGcm) where
  -- `urandom` is the answer of `os.urandom` in this call.
  unfoldable pub encrypt : (ℕ → Bytes) → SecretBytes → Bytes → Bytes → Result (Bytes × Bytes)
  unfolding as_key
  encrypt urandom key plaintext aad = do
    let nonce = urandom nonce_len
    raw ← as_key key
    ct ← aes.encrypt raw nonce plaintext aad
    ok (nonce, ct)

  unfoldable pub decrypt : SecretBytes → Bytes → Bytes → Bytes → Result Bytes
  unfolding as_key or_decryption_error
  decrypt key nonce ciphertext aad =
      if not (length nonce == nonce_len)
      then err Error.value_error
      else do raw ← as_key key; or_decryption_error (aes.decrypt raw nonce ciphertext aad)
