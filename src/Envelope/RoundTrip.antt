-- ===== src/Envelope/RoundTrip.antt =====
-- `Envelope.pack` and `Envelope.unpack` (src/keystonecrypto/envelope.py), one after the other.
use keystone_crypto.Prelude.{
  ℕ, ◌+◌, ◌≤◌, ◌≡◌, ◌≢◌, refl, sym, ap, ◌∙◌, [], ◌∷◌, ◌++◌, Bool, length, take, drop, slice,
  length-take, length-drop, length-append, drop-drop, take-append-drop, some, le→ltb, ==_refl,
  ==_iff, arith, Option,
}
use mathlib.Core.List.{append_assoc}
use keystone_crypto.Errors.{Result, ok}
use keystone_crypto.Bytes.{Bytes, ℤ, byte, IsI64, pack_i64, pack_i64_shape, pack_i64_fits}
use keystone_crypto.SecretBytes.{SecretBytes}
use keystone_crypto.Kdf.{Argon2, Argon2Params, derive_key}
use keystone_crypto.Aead.{AesGcm, IsAesGcm, as_key, encrypt, decrypt}
use keystone_crypto.Envelope.{timestamp, aad, pack, unpack}
use keystone_crypto.Envelope.Sections.{FitsHeader, pack_kdf_params_fits}
use keystone_crypto.Envelope.Plaintext.{
  plain_of, length-plain_of, pack_plaintext_fits, unpack_plaintext-plain_of, new_of_ne-nil,
}
use keystone_crypto.Envelope.Blob.{blob_length, blob_of, open_sealed, unpack-blob_of}

-- The hash of the password under the given parameters and salt.
abbrev pub hash_of : Argon2 → SecretBytes → Argon2Params → Bytes → Result Bytes
hash_of argon2 password p salt =
    argon2.hash_secret_raw password.buf salt p.time_cost p.memory_cost p.parallelism p.hash_len
      p.version

raw_ne-nil : (raw : Bytes) → length raw ≡ 32 → raw ≢ []
raw_ne-nil raw h e = absurd (omega (arith, ap length e))

pub derive_key_fits :
    (argon2 : Argon2) (token_bytes : ℕ → Bytes) (password : SecretBytes) (p : Argon2Params)
    (salt raw : Bytes)
    → length salt ≡ p.salt_len
    → hash_of argon2 password p salt ≡ ok raw
    → length raw ≡ 32
    → derive_key argon2 token_bytes password p (some salt) ≡ ok (record { buf = raw }, salt)
unfolding derive_key
derive_key_fits argon2 token_bytes password p salt raw hs hh hr =
    rw (hs, ==_refl p.salt_len, hh, new_of_ne-nil raw (raw_ne-nil raw hr))

split_salt :
    (salt rest : Bytes)
    → take 16 salt ++ (slice 16 28 salt ++ (drop 28 salt ++ rest)) ≡ salt ++ rest
split_salt salt rest =
    let after : Bytes = drop 16 salt in
    ap (λ (t : Bytes). take 16 salt ++ (take 12 after ++ (t ++ rest)))
      (sym (drop-drop 16 12 28 salt refl))
    ∙ ap (λ (t : Bytes). take 16 salt ++ t)
        (sym (append_assoc (take 12 after) (drop 12 after) rest))
    ∙ ap (λ (t : Bytes). take 16 salt ++ (t ++ rest)) (take-append-drop 12 after)
    ∙ sym (append_assoc (take 16 salt) after rest)
    ∙ ap (λ (t : Bytes). t ++ rest) (take-append-drop 16 salt)

pub as_key_fits : (raw : Bytes) → length raw ≡ 32 → as_key (record { buf = raw }) ≡ ok raw
unfolding as_key
as_key_fits raw h = ground arith

module _ (argon2 : Argon2) (aes : AesGcm) (is_aes : IsAesGcm aes) (token_bytes urandom : ℕ → Bytes)
    (now : ℤ) (seed password : SecretBytes) (params : Argon2Params) (hp : Bool)
    (created_at : Option ℤ) (raw : Bytes)
    (salt_length : length (token_bytes params.salt_len) ≡ params.salt_len)
    (nonce_length : length (urandom 12) ≡ 12) (seed_short : length seed.buf ≤ 255)
    (key_length : params.hash_len ≡ 32) (fits : FitsHeader params)
    (stamp_fits : IsI64 (timestamp created_at now))
    (hashed : hash_of argon2 password params (token_bytes params.salt_len) ≡ ok raw)
    (raw_length : length raw ≡ 32) where
  stamp : Bytes
  stamp = (pack_i64_fits (timestamp created_at now) stamp_fits).0

  packed_stamp : pack_i64 (timestamp created_at now) ≡ ok stamp
  unfolding stamp
  packed_stamp = (pack_i64_fits (timestamp created_at now) stamp_fits).1

  plain : Bytes
  plain = plain_of seed.buf stamp hp

  plain_length : length plain ≡ length seed.buf + 16
  unfolding plain
  plain_length = length-plain_of seed.buf stamp hp (pack_i64_shape _ stamp packed_stamp).0

  sealed :
      (ct : Bytes) × (aes.encrypt raw (urandom 12) plain (1 ∷ 1 ∷ []) ≡ ok ct)
      × (length ct ≡ length plain + 16)
      × (aes.decrypt raw (urandom 12) ct (1 ∷ 1 ∷ []) ≡ some plain)
  sealed =
      is_aes.encrypts raw (urandom 12) plain (1 ∷ 1 ∷ []) raw_length nonce_length
        (omega (arith, plain_length)) (omega arith)

  sealed_key :
      encrypt aes urandom (record { buf = raw }) plain (1 ∷ 1 ∷ []) ≡ ok (urandom 12, sealed.0)
  unfolding encrypt
  sealed_key = rw (as_key_fits raw raw_length, sealed.1)

  blob : Bytes
  blob = blob_of 1 params (token_bytes params.salt_len) (urandom 12) sealed.0

  pack_fits : pack argon2 aes token_bytes urandom now seed password params 1 hp created_at ≡ ok blob
  unfolding pack blob plain aad byte
  pack_fits = rw (
    le→ltb 255 (length seed.buf) seed_short,
    (==_iff params.hash_len 32).1 key_length,
    derive_key_fits argon2 token_bytes password params (token_bytes params.salt_len) raw salt_length
        hashed raw_length,
    pack_plaintext_fits seed.buf stamp (timestamp created_at now) hp seed_short packed_stamp,
    sealed_key,
    pack_kdf_params_fits params fits,
  )

  pub pack_returns :
      (b : Bytes) × (pack argon2 aes token_bytes urandom now seed password params 1 hp created_at
        ≡ ok b)
  pack_returns = (blob, pack_fits)

  open_own :
      params.salt_len ≡ 16
      → seed.buf ≢ []
      → open_sealed argon2 aes
          (token_bytes params.salt_len)
          (record params { salt_len = 16 })
          1
          (urandom 12)
          sealed.0
          password
        ≡ ok (record { seed = seed; has_passphrase = hp; created_at = timestamp created_at now })
  unfolding open_sealed aad byte decrypt plain
  open_own h16 ne = rw (
    derive_key_fits argon2 (λ n. []) password (record params { salt_len = 16 })
        (token_bytes params.salt_len) raw (salt_length ∙ h16) hashed raw_length,
    nonce_length,
    as_key_fits raw raw_length,
    sealed.3,
    unpack_plaintext-plain_of seed.buf stamp (timestamp created_at now) hp ne packed_stamp,
  )

  -- With a salt of 16 bytes, packing succeeds and unpacking the blob under the same password gives the
  -- seed, the flag and the time stamp back; the blob is 98 bytes longer than the seed. This is for a
  -- seed of 1 to 255 bytes, a hash length of 32, parameters of at most 32 bits, a time stamp of 64 bits,
  -- random sources that give as many bytes as they are asked for, an Argon2 that returns a hash of 32
  -- bytes, and a cipher that does what it documents.
  pub unpack-pack :
      params.salt_len ≡ 16
      → seed.buf ≢ []
      → (b : Bytes) × (pack argon2 aes token_bytes urandom now seed password params 1 hp created_at
          ≡ ok b)
        × (unpack argon2 aes b password
            ≡ ok (record {
              seed = seed;
              has_passphrase = hp;
              created_at = timestamp created_at now;
            }))
        × (length b ≡ 98 + length seed.buf)
  unfolding blob
  unpack-pack h16 ne = (
    blob,
    pack_fits,
    unpack-blob_of argon2 aes 1 params (token_bytes params.salt_len) (urandom 12) sealed.0 password
          (salt_length ∙ h16) nonce_length (omega (arith, sealed.2)) fits
        ∙ open_own h16 ne,
    blob_length 1 params (token_bytes params.salt_len) (urandom 12) sealed.0 (salt_length ∙ h16)
          nonce_length
        ∙ omega (arith, sealed.2, plain_length),
  )

  -- With a salt of 28 bytes or more, packing succeeds, but unpacking takes the first 16 bytes of the
  -- salt for the salt, the next 12 for the nonce, and all that follows for the ciphertext. The seed,
  -- the parameters and the libraries are as for a salt of 16 bytes, and the seed may be empty.
  pub unpack-pack_long_salt :
      28 ≤ params.salt_len
      → (b ct : Bytes) × (pack argon2 aes token_bytes urandom now seed password params 1 hp
            created_at
          ≡ ok b)
        × (let salt = token_bytes params.salt_len in
            unpack argon2 aes b password
            ≡ open_sealed argon2 aes
                (take 16 salt)
                (record params { salt_len = 16 })
                1
                (slice 16 28 salt)
                (drop 28 salt ++ (urandom 12 ++ ct))
                password)
  unfolding blob
  unpack-pack_long_salt h28 =
      let salt : Bytes = token_bytes params.salt_len in
      let front : Bytes = take 16 salt in
      let middle : Bytes = slice 16 28 salt in
      let back : Bytes = drop 28 salt ++ (urandom 12 ++ sealed.0) in
      let whole : front ++ (middle ++ back) ≡ salt ++ (urandom 12 ++ sealed.0) =
        split_salt salt (urandom 12 ++ sealed.0) in
      (
        blob,
        sealed.0,
        pack_fits,
        rw (← whole) (
            unpack-blob_of argon2 aes 1 params front middle back password
              (length-take 16 salt ∙ omega (arith, salt_length))
              (length-take 12 (drop 16 salt) ∙ omega (arith, salt_length, length-drop 16 salt))
              (omega (
                arith,
                length-append (drop 28 salt) (urandom 12 ++ sealed.0),
                length-append (urandom 12) sealed.0,
                sealed.2,
              ))
              fits),
      )
