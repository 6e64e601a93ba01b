-- ===== src/Hashes.antt =====
-- The hash functions of Python's `hashlib` and `hmac`, as parameters.
use keystone_crypto.Prelude.{ℕ, ◌≡◌, length}
use keystone_crypto.Bytes.{Bytes, AreBytes}

-- `sha256(m)`, `hmac(key, m, sha512)`, `ripemd160(m)` and PBKDF2-HMAC-SHA512 of a password, a salt,
-- a number of rounds and a length.
pub record Hashes : Type 0 where
  pub sha256 : Bytes → Bytes
  pub hmac_sha512 : Bytes → Bytes → Bytes
  pub ripemd160 : Bytes → Bytes
  pub pbkdf2_sha512 : Bytes → Bytes → ℕ → ℕ → Bytes

-- A digest is a byte string of the standard's length.
pub record IsHashes (h : Hashes) : Type 0 where
  pub length-sha256 : (m : Bytes) → length (h.sha256 m) ≡ 32
  pub sha256-AreBytes : (m : Bytes) → AreBytes (h.sha256 m)
  pub length-hmac_sha512 : (k m : Bytes) → length (h.hmac_sha512 k m) ≡ 64
  pub hmac_sha512-AreBytes : (k m : Bytes) → AreBytes (h.hmac_sha512 k m)
  pub length-ripemd160 : (m : Bytes) → length (h.ripemd160 m) ≡ 20
  pub ripemd160-AreBytes : (m : Bytes) → AreBytes (h.ripemd160 m)
  pub length-pbkdf2 : (p s : Bytes) (rounds n : ℕ) → length (h.pbkdf2_sha512 p s rounds n) ≡ n
