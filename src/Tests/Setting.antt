-- ===== src/Tests/Setting.antt =====
-- The concrete inputs of the runs.
use keystone_crypto.Prelude.{ℕ, ◌≡◌, ◌≢◌, refl, [], ◌∷◌, ◌++◌, take, replicate, arith}
use keystone_crypto.Errors.{ok}
use keystone_crypto.Bytes.{Bytes, AreBytes, ℤ, pos, IsI64}
use keystone_crypto.Text.{Str, codes}
use keystone_crypto.Unicode.{encode_utf8}
use keystone_crypto.SecretBytes.{SecretBytes}
use keystone_crypto.Kdf.{Argon2Params}
use keystone_crypto.Envelope.Sections.{FitsHeader}

abbrev pub entropy_16 : Bytes
entropy_16 = 200 ∷ replicate 14 17 ++ 3 ∷ []

pub entropy_16-AreBytes : AreBytes entropy_16
entropy_16-AreBytes = ground arith

abbrev pub params_with : ℕ → Argon2Params
params_with salt_len = record {
  time_cost = 3;
  memory_cost = 262144;
  parallelism = 4;
  hash_len = 32;
  salt_len = salt_len;
  version = 0x13;
}

pub params-FitsHeader : (salt_len : ℕ) → FitsHeader (params_with salt_len)
params-FitsHeader salt_len = record {
  time_cost_fits = omega arith;
  memory_cost_fits = omega arith;
  parallelism_fits = omega arith;
  hash_len_fits = omega arith;
  version_fits = omega arith;
}

abbrev pub sevens : ℕ → Bytes
sevens n = replicate n 7

abbrev pub nines : ℕ → Bytes
nines n = replicate n 9

abbrev pub now : ℤ
now = pos 1700000000

pub now-IsI64 : IsI64 now
now-IsI64 = omega arith

abbrev pub password : Str
password = codes "hunter2"

abbrev pub pw : SecretBytes
pw = record { buf = password }

pub password-encoded : encode_utf8 password ≡ ok password
unfolding encode_utf8
password-encoded = refl

pub password-ne-nil : password ≢ []
password-ne-nil e = cc

abbrev pub key_for : ℕ → Bytes
key_for salt_len = take 32 (password ++ (sevens salt_len ++ replicate 32 3))

-- The key of the wallet's account at 44'.
abbrev pub signing_key : Bytes
signing_key =
    0 ∷ 0 ∷ 0 ∷ 0 ∷ 0 ∷ 0 ∷ 0 ∷ 0 ∷ 0 ∷ 0 ∷ 46 ∷ 47 ∷ 120 ∷ 153 ∷ 174 ∷ 123 ∷ 37 ∷ 95 ∷ 196 ∷ 138
    ∷ 115 ∷ 61 ∷ 78 ∷ 28 ∷ 161 ∷ 151 ∷ 216 ∷ 35 ∷ 30 ∷ 113 ∷ 100 ∷ 66 ∷ []

-- What the curve library draws.
abbrev pub noise : Bytes
noise = nines 32
