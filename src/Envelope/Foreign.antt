-- ===== src/Envelope/Foreign.antt =====
-- When `Envelope.unpack` (src/keystonecrypto/envelope.py) says that a keystore is of another version.
use keystone_crypto.Prelude.{◌≡◌, ◌⊎◌, inl, inr, arith}
use mathlib.Core.Logic.{◌↔◌}
use keystone_crypto.Errors.{Error, err}
use keystone_crypto.Bytes.{Bytes, AreBytes, index_of_lt, index-AreBytes}
use keystone_crypto.SecretBytes.{SecretBytes}
use keystone_crypto.Kdf.{Argon2, IsSelfContained}
use keystone_crypto.Aead.{AesGcm}
use keystone_crypto.Envelope.{unpack}
use keystone_crypto.Envelope.Failures.{unpack_foreign, unpack_other_kdf}
use keystone_crypto.Envelope.Raised.{HashIsNoKey, SeedIsEmpty, IsForeign, unpack_raises}

module _ (argon2 : Argon2) (aes : AesGcm) (blob : Bytes) (password : SecretBytes) where
  only_foreign :
      (Error.keystore_version ≡ Error.keystore_decryption)
        ⊎ ((Error.keystore_version ≡ Error.keystore_version) × IsForeign argon2 aes blob password)
        ⊎ (Error.keystore_version ≡ Error.foreign)
        ⊎ ((Error.keystore_version ≡ Error.value_error)
            × (HashIsNoKey argon2 aes blob password ⊎ SeedIsEmpty argon2 aes blob password))
      → IsForeign argon2 aes blob password
  only_foreign (inl e) = cc
  only_foreign (inr (inl (_, foreign))) = foreign
  only_foreign (inr (inr (inl e))) = cc
  only_foreign (inr (inr (inr (e, _)))) = cc

  refused :
      AreBytes blob
      → IsForeign argon2 aes blob password
      → unpack argon2 aes blob password ≡ err Error.keystore_version
  refused are_bytes (long, inl other) =
      let (v, at4) = index_of_lt blob 4 (omega (arith, long)) in
      unpack_foreign argon2 aes blob password v long at4 (inl other)
  refused are_bytes (long, inr (inl (marked, (v, at4, other)))) =
      unpack_foreign argon2 aes blob password v long at4 (inr (marked, other))
  refused are_bytes
        (long, inr (inr (marked, at4, (k, key, plain, at5, other, hashed, size, opened)))) =
      unpack_other_kdf argon2 aes blob password k key plain long marked at4 at5
        (index-AreBytes blob 5 k are_bytes at5) other hashed size opened

  -- `unpack` raises `KeystoreVersionError` exactly for a blob of 82 bytes or more that has another magic,
  -- or the magic and another version byte, or both of these right and, opening under the password, a KDF
  -- number other than 1. Argon2 raises its own exceptions only.
  pub unpack_version_iff :
      IsSelfContained argon2
      → AreBytes blob
      → (unpack argon2 aes blob password ≡ err Error.keystore_version)
        ↔ IsForeign argon2 aes blob password
  unpack_version_iff contained are_bytes = (
    λ raised.
        only_foreign (
          unpack_raises argon2 aes blob password contained are_bytes Error.keystore_version raised),
    refused are_bytes,
  )
