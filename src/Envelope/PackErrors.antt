-- ===== src/Envelope/PackErrors.antt =====
-- Two exceptions of `Envelope.pack` (src/keystonecrypto/envelope.py).
use keystone_crypto.Prelude.{
  ℕ, ◌≤◌, ◌≡◌, ◌≢◌, inl, inr, refl, Bool, Option, length, ◌==◌, ==_iff, ==_refl, le→ltb, Bool-cases,
}
use keystone_crypto.Errors.{Error, err}
use keystone_crypto.Bytes.{Bytes, ℤ}
use keystone_crypto.SecretBytes.{SecretBytes}
use keystone_crypto.Kdf.{Argon2, Argon2Params, derive_key, hash_with}
use keystone_crypto.Aead.{AesGcm}
use keystone_crypto.Envelope.{pack}
use keystone_crypto.Envelope.RoundTrip.{hash_of}

module _ (argon2 : Argon2) (aes : AesGcm) (token_bytes urandom : ℕ → Bytes) (now : ℤ)
    (seed password : SecretBytes) (params : Argon2Params) (hp : Bool) (created_at : Option ℤ)
    (short : length seed.buf ≤ 255) where
  pub pack_hash_len :
      params.hash_len ≢ 32
      → pack argon2 aes token_bytes urandom now seed password params 1 hp created_at
        ≡ err Error.value_error
  unfolding pack
  pack_hash_len other = elim (Bool-cases (params.hash_len == 32)) [
    | inl same ↦ absurd (other ((==_iff params.hash_len 32).0 same))
    | inr differs ↦ rw (le→ltb 255 (length seed.buf) short, differs) refl
  ]

  pub pack_unhashed :
      (e : Error)
      → params.hash_len ≡ 32
      → length (token_bytes params.salt_len) ≡ params.salt_len
      → hash_of argon2 password params (token_bytes params.salt_len) ≡ err e
      → pack argon2 aes token_bytes urandom now seed password params 1 hp created_at ≡ err e
  unfolding pack derive_key hash_with
  pack_unhashed e size salted unhashed =
      rw
        (
          le→ltb 255 (length seed.buf) short,
          (==_iff params.hash_len 32).1 size,
          salted,
          ==_refl params.salt_len,
          unhashed,
        )
        refl
