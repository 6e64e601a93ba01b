-- ===== src/Envelope/Failures.antt =====
-- The errors of `Envelope.unpack` (src/keystonecrypto/envelope.py).
use keystone_crypto.Prelude.{
  ne→==, ==_refl, sym, ap, some, ℕ, ◌-◌, ◌≤◌, ◌<◌, ◌≡◌, ◌≢◌, ◌⊎◌, refl, ◌∙◌, [], ◌∷◌, length,
  length-take, length-drop, slice, drop, none, le→ltb, inl, inr, arith,
}
use keystone_crypto.Errors.{Error, ok, err}
use keystone_crypto.Bytes.{ne→equal, Bytes, byte_fits, from_bytes, index, equal_refl}
use keystone_crypto.SecretBytes.{SecretBytes}
use keystone_crypto.Kdf.{Argon2, Argon2Params, IsArgon2, derive_key, for_testing}
use keystone_crypto.Aead.{AesGcm, as_key, decrypt, or_decryption_error}
use keystone_crypto.Envelope.Plaintext.{new_of_ne-nil}
use keystone_crypto.Envelope.{magic, aad, unpack, unpack_kdf_params}
use keystone_crypto.Envelope.RoundTrip.{hash_of, derive_key_fits, as_key_fits}

-- A blob of 82 bytes or more with another magic, or with the magic and another version, is refused as
-- a keystore of another version.
pub unpack_foreign :
    (argon2 : Argon2) (aes : AesGcm) (blob : Bytes) (password : SecretBytes) (v : ℕ)
    → 82 ≤ length blob
    → index blob 4 ≡ ok v
    → (slice 0 4 blob ≢ magic) ⊎ ((slice 0 4 blob ≡ magic) × (v ≢ 1))
    → unpack argon2 aes blob password ≡ err Error.keystore_version
unfolding unpack
unpack_foreign argon2 aes blob password v long at4 (inl other) =
    rw (le→ltb (length blob) 82 long, ne→equal (slice 0 4 blob) magic other)
unpack_foreign argon2 aes blob password v long at4 (inr (marked, old)) =
    rw (le→ltb (length blob) 82 long, marked, equal_refl magic, at4, ne→== v 1 old)

-- The parameters that the header of a blob holds.
abbrev pub header_params : Bytes → Argon2Params
header_params blob = record {
  time_cost = from_bytes (slice 0 4 (slice 6 38 blob));
  memory_cost = from_bytes (slice 4 8 (slice 6 38 blob));
  parallelism = from_bytes (slice 8 12 (slice 6 38 blob));
  hash_len = from_bytes (slice 12 16 (slice 6 38 blob));
  salt_len = 16;
  version = from_bytes (slice 16 20 (slice 6 38 blob));
}

pub length-slice :
    (i j : ℕ) (blob : Bytes) → i ≤ j → j ≤ length blob → length (slice i j blob) ≡ j - i
length-slice i j blob h hj = length-take (j - i) (drop i blob) ∙ omega (arith, length-drop i blob)

pub unpack_kdf_params_lem :
    (b : Bytes) (blob : Bytes)
    → b ≡ slice 6 38 blob
    → length b ≡ 32
    → unpack_kdf_params b ≡ ok (header_params blob)
unfolding unpack_kdf_params for_testing
unpack_kdf_params_lem b blob e h = rw (h, e) refl

pub aad_fits : (k : ℕ) → k < 256 → aad 1 k ≡ ok (1 ∷ k ∷ [])
unfolding aad
aad_fits k h = rw (byte_fits 1 (omega arith), byte_fits k h) refl

-- If the magic and the version are right, but the cipher does not open the blob under the hash of the
-- password, as after a change of the blob or with another password, the error is a failed decryption;
-- so it is for every number of the KDF. The hash has 32 bytes.
pub unpack_refused :
    (argon2 : Argon2) (aes : AesGcm) (blob : Bytes) (password : SecretBytes) (kdf_id : ℕ)
    (key : Bytes)
    → 82 ≤ length blob
    → slice 0 4 blob ≡ magic
    → index blob 4 ≡ ok 1
    → index blob 5 ≡ ok kdf_id
    → kdf_id < 256
    → hash_of argon2 password (header_params blob) (slice 38 54 blob) ≡ ok key
    → length key ≡ 32
    → aes.decrypt key (slice 54 66 blob) (drop 66 blob) (1 ∷ kdf_id ∷ []) ≡ none
    → unpack argon2 aes blob password ≡ err Error.keystore_decryption
unfolding unpack decrypt or_decryption_error
unpack_refused argon2 aes blob password kdf_id key long marked at4 at5 small hashed size refused =
    rw (
      le→ltb (length blob) 82 long,
      marked,
      equal_refl magic,
      at4,
      at5,
      unpack_kdf_params_lem (slice 6 38 blob) blob refl
          (length-slice 6 38 blob (omega arith) (omega arith)),
      derive_key_fits argon2 (λ n. []) password (header_params blob) (slice 38 54 blob) key
          (length-slice 38 54 blob (omega arith) (omega arith)) hashed size,
      aad_fits kdf_id small,
      length-slice 54 66 blob (omega arith) (omega arith),
      as_key_fits key size,
      refused,
    )

-- An authentic blob with another number of the KDF is refused as a keystore of another version.
pub unpack_other_kdf :
    (argon2 : Argon2) (aes : AesGcm) (blob : Bytes) (password : SecretBytes) (kdf_id : ℕ)
    (key plain : Bytes)
    → 82 ≤ length blob
    → slice 0 4 blob ≡ magic
    → index blob 4 ≡ ok 1
    → index blob 5 ≡ ok kdf_id
    → kdf_id < 256
    → kdf_id ≢ 1
    → hash_of argon2 password (header_params blob) (slice 38 54 blob) ≡ ok key
    → length key ≡ 32
    → aes.decrypt key (slice 54 66 blob) (drop 66 blob) (1 ∷ kdf_id ∷ []) ≡ some plain
    → unpack argon2 aes blob password ≡ err Error.keystore_version
unfolding unpack decrypt or_decryption_error
unpack_other_kdf argon2 aes blob password kdf_id key plain long marked at4 at5 small other hashed
      size opened =
    rw (
      le→ltb (length blob) 82 long,
      marked,
      equal_refl magic,
      at4,
      at5,
      unpack_kdf_params_lem (slice 6 38 blob) blob refl
          (length-slice 6 38 blob (omega arith) (omega arith)),
      derive_key_fits argon2 (λ n. []) password (header_params blob) (slice 38 54 blob) key
          (length-slice 38 54 blob (omega arith) (omega arith)) hashed size,
      aad_fits kdf_id small,
      length-slice 54 66 blob (omega arith) (omega arith),
      as_key_fits key size,
      opened,
      ne→== kdf_id 1 other,
    )

derive_key_any :
    (argon2 : Argon2) (password : SecretBytes) (params : Argon2Params) (salt raw : Bytes)
    → length salt ≡ params.salt_len
    → hash_of argon2 password params salt ≡ ok raw
    → raw ≢ []
    → derive_key argon2 (λ n. []) password params (some salt) ≡ ok (record { buf = raw }, salt)
unfolding derive_key
derive_key_any argon2 password params salt raw hs hh hr =
    rw (hs, ==_refl params.salt_len, hh, new_of_ne-nil raw hr)

as_key_refuses :
    (raw : Bytes) → length raw ≢ 32 → as_key (record { buf = raw }) ≡ err Error.value_error
unfolding as_key
as_key_refuses raw h = rw (ne→== (length raw) 32 h)

-- If the magic and the version are right and the header asks for a hash of another length than 32,
-- and not of length 0, then, when argon2 computes the hash, `unpack` raises `ValueError`, not a failed
-- decryption.
pub unpack_hash_len :
    (argon2 : Argon2) (aes : AesGcm) (blob : Bytes) (password : SecretBytes) (raw : Bytes)
    (kdf_id : ℕ)
    → IsArgon2 argon2
    → 82 ≤ length blob
    → slice 0 4 blob ≡ magic
    → index blob 4 ≡ ok 1
    → index blob 5 ≡ ok kdf_id
    → kdf_id < 256
    → hash_of argon2 password (header_params blob) (slice 38 54 blob) ≡ ok raw
    → (header_params blob).hash_len ≢ 0
    → (header_params blob).hash_len ≢ 32
    → unpack argon2 aes blob password ≡ err Error.value_error
unfolding unpack decrypt
unpack_hash_len argon2 aes blob password raw kdf_id is_argon2 long marked at4 at5 small hashed
      some_bytes no_key =
    rw (
      le→ltb (length blob) 82 long,
      marked,
      equal_refl magic,
      at4,
      at5,
      unpack_kdf_params_lem (slice 6 38 blob) blob refl
          (length-slice 6 38 blob (omega arith) (omega arith)),
      derive_key_any argon2 password (header_params blob) (slice 38 54 blob) raw
          (length-slice 38 54 blob (omega arith) (omega arith)) hashed
          (λ e. some_bytes (sym (sized raw hashed) ∙ ap length e)),
      aad_fits kdf_id small,
      length-slice 54 66 blob (omega arith) (omega arith),
      as_key_refuses raw (λ e. no_key (sym (sized raw hashed) ∙ e)),
    )
  where
    sized :
        (raw : Bytes)
        → hash_of argon2 password (header_params blob) (slice 38 54 blob) ≡ ok raw
        → length raw ≡ (header_params blob).hash_len
    sized raw e = is_argon2.length-hash _ _ _ _ _ _ _ raw e
