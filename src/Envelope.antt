-- ===== src/Envelope.antt =====
-- src/keystonecrypto/envelope.py: the keystore blob, packed and unpacked.
pub mod Sections
pub mod Plaintext
pub mod Blob
pub mod RoundTrip
pub mod Rejects
pub mod Failures
pub mod StepErrors
pub mod PackErrors
pub mod Raised
pub mod Foreign
use keystone_crypto.Prelude.{
  ℕ, ◌+◌, ◌%◌, List, [], ◌∷◌, ◌++◌, Bool, ◌&&◌, length, drop, slice, replicate, ltb, ◌==◌, not,
  Option, none, some, if◌then◌else◌,
}
use keystone_crypto.Errors.{Error, Result, ok, err, ◌>>=◌, ◌>>◌, require}
use keystone_crypto.Bytes.{Bytes, ℤ, from_bytes, byte, pack_u32, pack_i64, unpack_i64, index, equal}
use keystone_crypto.SecretBytes.{SecretBytes, new}
use keystone_crypto.Kdf.{Argon2, Argon2Params, derive_key, for_testing}
use keystone_crypto.Aead.{AesGcm, encrypt, decrypt, nonce_len}

-- b"KST1"
abbrev pub magic : Bytes
magic = b'K' ∷ b'S' ∷ b'T' ∷ b'1' ∷ []

abbrev pub version : ℕ
version = 1

abbrev pub header_len : ℕ
header_len = 4 + 1 + 1 + 32 + 16 + nonce_len

abbrev pub gcm_tag_len : ℕ
gcm_tag_len = 16

abbrev pub plaintext_overhead : ℕ
plaintext_overhead = 1 + 8 + 1 + 6

-- Offsets inside the header.
abbrev pub off_magic : ℕ
off_magic = 0

abbrev pub off_version : ℕ
off_version = 4

abbrev pub off_kdf_id : ℕ
off_kdf_id = 5

abbrev pub off_kdf : ℕ
off_kdf = 6

abbrev pub off_salt : ℕ
off_salt = 38

abbrev pub off_nonce : ℕ
off_nonce = 54

pub record UnpackedKeystore : Type 0 where
  pub seed : SecretBytes
  pub has_passphrase : Bool
  pub created_at : ℤ

unfoldable pub pack_kdf_params : Argon2Params → Result Bytes
pack_kdf_params p = do
  t ← pack_u32 p.time_cost
  m ← pack_u32 p.memory_cost
  par ← pack_u32 p.parallelism
  hl ← pack_u32 p.hash_len
  v ← pack_u32 p.version
  ok (t ++ (m ++ (par ++ (hl ++ (v ++ replicate 12 0)))))

unfoldable pub unpack_kdf_params : Bytes → Result Argon2Params
unfolding for_testing
unpack_kdf_params blob =
    if not (length blob == 32)
    then err Error.keystore_decryption
    else ok (
        for_testing (from_bytes (slice 0 4 blob)) (from_bytes (slice 4 8 blob))
          (from_bytes (slice 8 12 blob)) (some (from_bytes (slice 12 16 blob))) (some 16)
          (some (from_bytes (slice 16 20 blob))))

-- `bytes([version, kdf_id])`
unfoldable pub aad : ℕ → ℕ → Result Bytes
aad v kdf_id = do a ← byte v; b ← byte kdf_id; ok (a ++ b)

abbrev timestamp : Option ℤ → ℤ → ℤ
timestamp none now = now
timestamp (some t) now = t

abbrev flags_of : Bool → ℕ
flags_of has_passphrase = if has_passphrase then 1 else 0

-- The plaintext that is encrypted: seed length, seed, time stamp, flags, six zero bytes.
unfoldable pub pack_plaintext : Bytes → ℤ → Bool → Result Bytes
pack_plaintext seed ts has_passphrase = do
  seed_len ← byte (length seed)
  stamp ← pack_i64 ts
  flags ← byte (flags_of has_passphrase)
  ok (seed_len ++ (seed ++ (stamp ++ (flags ++ replicate 6 0))))

-- `bool(flags & 0x01)`
abbrev flag_set : ℕ → Bool
flag_set flags = flags % 2 == 1

unfoldable pub unpack_plaintext : Bytes → Result UnpackedKeystore
unpack_plaintext plaintext =
    if ltb (length plaintext) (1 + 8 + 1 + 6) then err Error.keystore_decryption else do
      seed_len ← index plaintext 0
      require (not (ltb (length plaintext) (1 + seed_len + 8 + 1 + 6))) Error.keystore_decryption
      seed ← new (slice 1 (1 + seed_len) plaintext)
      created_at ← unpack_i64 (slice (1 + seed_len) (1 + seed_len + 8) plaintext)
      flags ← index plaintext (1 + seed_len + 8)
      ok (record { seed = seed; has_passphrase = flag_set flags; created_at = created_at })

module _ (argon2 : Argon2) (aes : AesGcm) where
  -- `token_bytes` and `urandom` answer the calls of the random sources that this call makes, and
  -- `now` is `int(time.time())`.
  unfoldable pub pack :
      (ℕ → Bytes)
      → (ℕ → Bytes)
      → ℤ
      → SecretBytes
      → SecretBytes
      → Argon2Params
      → ℕ
      → Bool
      → Option ℤ
      → Result Bytes
  pack token_bytes urandom now seed password params kdf_id has_passphrase created_at = do
    require (kdf_id == 1) Error.value_error
    require (not (ltb 255 (length seed.buf))) Error.value_error
    require (params.hash_len == 32) Error.value_error
    let salt = token_bytes params.salt_len
    derived ← derive_key argon2 token_bytes password params (some salt)
    plaintext ← pack_plaintext seed.buf (timestamp created_at now) has_passphrase
    context ← aad version kdf_id
    sealed ← encrypt aes urandom derived.0 plaintext context
    head ← aad version kdf_id
    kdf ← pack_kdf_params params
    ok (magic ++ (head ++ (kdf ++ (salt ++ (sealed.0 ++ sealed.1)))))

  unfoldable pub unpack : Bytes → SecretBytes → Result UnpackedKeystore
  unpack blob password =
      if ltb (length blob) (header_len + gcm_tag_len) then err Error.keystore_decryption else do
        require (equal (slice off_magic (off_magic + 4) blob) magic) Error.keystore_version
        v ← index blob off_version
        require (v == version) Error.keystore_version
        kdf_id ← index blob off_kdf_id
        params ← unpack_kdf_params (slice off_kdf (off_kdf + 32) blob)
        let salt = slice off_salt (off_salt + 16) blob
        let nonce = slice off_nonce (off_nonce + nonce_len) blob
        let ciphertext = drop header_len blob
        derived ← derive_key argon2 (λ n. []) password params (some salt)
        context ← aad v kdf_id
        plaintext ← decrypt aes derived.0 nonce ciphertext context
        require (kdf_id == 1) Error.keystore_version
        unpack_plaintext plaintext
