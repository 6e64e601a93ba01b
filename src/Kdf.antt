-- ===== src/Kdf.antt =====
-- src/keystonecrypto/kdf.py: Argon2id parameters and key derivation. The hash is a parameter.
pub mod Laws
use keystone_crypto.Prelude.{
  ℕ, ◌+◌, ◌%◌, ◌^◌, ◌<◌, ◌≡◌, Bool, ◌&&◌, leb, ◌==◌, not, length, Option, none, some, if◌then◌else◌,
}
use keystone_crypto.Errors.{Error, Result, ok, err, ◌>>=◌}
use keystone_crypto.Errors.Raises.{Raises}
use keystone_crypto.Bytes.{Bytes}
use keystone_crypto.SecretBytes.{SecretBytes, new}

abbrev pub owasp_min_memory_kib : ℕ
owasp_min_memory_kib = 19456

abbrev pub owasp_min_time_cost : ℕ
owasp_min_time_cost = 2

abbrev pub owasp_min_parallelism : ℕ
owasp_min_parallelism = 1

pub record Argon2Params : Type 0 where
  pub time_cost : ℕ
  pub memory_cost : ℕ
  pub parallelism : ℕ
  pub hash_len : ℕ
  pub salt_len : ℕ
  pub version : ℕ

abbrev between : ℕ → ℕ → ℕ → Bool
between lo hi n = leb lo n && leb n hi

-- The field bounds of the model class.
unfoldable pub fields_ok : Argon2Params → Bool
fields_ok p =
    between 1 10 p.time_cost
    && between owasp_min_memory_kib (2 ^ 21) p.memory_cost
    && between owasp_min_parallelism 16 p.parallelism
    && between 16 64 p.hash_len
    && between 8 64 p.salt_len
    && between 0x13 0x13 p.version

unfoldable pub memory_aligned : ℕ → Result ℕ
memory_aligned v = if not (v % 8 == 0) then err Error.validation_error else ok v

-- Public construction, `Argon2Params(...)`: the field bounds and the validator.
unfoldable pub new_params : Argon2Params → Result Argon2Params
unfolding fields_ok memory_aligned
new_params p =
    if fields_ok p
    then (do v ← memory_aligned p.memory_cost; ok (record p { memory_cost = v }))
    else err Error.validation_error

or_default : Option ℕ → ℕ → ℕ
or_default none d = d
or_default (some n) d = n

-- The keyword arguments of a construction; a field that is left out has its default.
unfoldable pub given : ℕ → ℕ → ℕ → Option ℕ → Option ℕ → Option ℕ → Argon2Params
unfolding or_default
given t m par hash_len salt_len version = record {
  time_cost = t;
  memory_cost = m;
  parallelism = par;
  hash_len = or_default hash_len 32;
  salt_len = or_default salt_len 16;
  version = or_default version 0x13;
}

-- `model_construct`: nothing is validated.
unfoldable pub for_testing : ℕ → ℕ → ℕ → Option ℕ → Option ℕ → Option ℕ → Argon2Params
unfolding given
for_testing = given

abbrev pub interactive_profile : Result Argon2Params
interactive_profile = new_params (given 3 262144 4 none none none)

abbrev pub high_security_profile : Result Argon2Params
high_security_profile = new_params (given 4 524288 4 none none none)

-- `argon2.low_level.hash_secret_raw` with type ID: secret, salt, time cost, memory cost,
-- parallelism, hash length, version.
pub record Argon2 : Type 0 where
  pub hash_secret_raw : Bytes → Bytes → ℕ → ℕ → ℕ → ℕ → ℕ → Result Bytes

-- What argon2 documents: a hash has the length that was asked for.
pub record IsArgon2 (a : Argon2) : Type 0 where
  pub length-hash :
      (secret salt : Bytes) (t m p h v : ℕ) (raw : Bytes)
      → a.hash_secret_raw secret salt t m p h v ≡ ok raw
      → length raw ≡ h

-- What argon2 documents: for numbers of 32 bits it raises its own exceptions only.
pub record IsSelfContained (a : Argon2) : Type 0 where
  pub raises :
      (secret salt : Bytes) (t m p h v : ℕ)
      → t < 2 ^ 32
      → m < 2 ^ 32
      → p < 2 ^ 32
      → h < 2 ^ 32
      → v < 2 ^ 32
      → Raises (λ e. e ≡ Error.foreign) (a.hash_secret_raw secret salt t m p h v)

module _ (argon2 : Argon2) where
  unfoldable pub hash_with : SecretBytes → Argon2Params → Bytes → Result (SecretBytes × Bytes)
  hash_with password params salt = do
    raw ←
        argon2.hash_secret_raw password.buf salt params.time_cost params.memory_cost
          params.parallelism params.hash_len params.version
    key ← new raw
    ok (key, salt)

  -- `token_bytes` is the answer of `secrets.token_bytes` in this call.
  unfoldable pub derive_key :
      (ℕ → Bytes) → SecretBytes → Argon2Params → Option Bytes → Result (SecretBytes × Bytes)
  unfolding hash_with
  derive_key token_bytes password params none =
      hash_with password params (token_bytes params.salt_len)
  derive_key token_bytes password params (some salt) =
      if not (length salt == params.salt_len)
      then err Error.value_error
      else hash_with password params salt
