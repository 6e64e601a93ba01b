-- ===== src/Derivation/Bip32.antt =====
-- The child data, number and fingerprint of BIP-32, against src/keystonecrypto/derivation.py.
use keystone_crypto.Prelude.{
  ℕ, ◌+◌, ◌^◌, ◌<◌, ◌≡◌, refl, sym, ◌∷◌, ◌++◌, Bool, true, false, take, lt→ltb, le→ltb, arith,
}
use keystone_crypto.Digits.{digits}
use keystone_crypto.Errors.{ok, ok-injective, >>=-eq-ok}
use keystone_crypto.Bytes.{pack_u32_fits, Bytes}
use keystone_crypto.Hashes.{Hashes}
use keystone_crypto.Signing.{Secp256k1}
use keystone_crypto.Derivation.{
  ExtendedPrivateKey, hardened_offset, effective_index, fingerprint, child_data,
}

-- BIP-32: 0x00 || ser256(kpar) || ser32(i) for a hardened child, serP(Kpar) || ser32(i) for another.
abbrev pub bip32_data : Bytes → Bytes → ℕ → Bool → Bytes
bip32_data key public_key n true = 0 ∷ (key ++ digits 256 4 (n + 2 ^ 31))
bip32_data key public_key n false = public_key ++ digits 256 4 n

abbrev pub bip32_number : ℕ → Bool → ℕ
bip32_number n true = n + 2 ^ 31
bip32_number n false = n

-- The first four bytes of the hash of a public key.
abbrev pub bip32_fingerprint : Hashes → Bytes → Bytes
bip32_fingerprint h public_key = take 4 (h.ripemd160 (h.sha256 public_key))

module _ (h : Hashes) (curve : Secp256k1) where
  pub child_data_lem :
      (parent : ExtendedPrivateKey) (sk : Bytes) (n : ℕ) (hardened : Bool)
      → n < 2 ^ 31
      → curve.private_key parent.secret_key.buf ≡ ok sk
      → child_data h curve parent (bip32_number n hardened)
        ≡ ok (bip32_data parent.secret_key.buf (curve.public_key sk) n hardened)
  unfolding child_data
  child_data_lem parent sk n true small e =
      rw
        (
          le→ltb (n + 2 ^ 31) hardened_offset (omega arith),
          pack_u32_fits (n + 2 ^ 31) (omega arith),
        )
        refl
  child_data_lem parent sk n false small e =
      rw (lt→ltb n hardened_offset small, e, pack_u32_fits n (omega arith)) refl

  pub number_lem : (n : ℕ) (hardened : Bool) → effective_index n hardened ≡ bip32_number n hardened
  unfolding effective_index
  number_lem n true = refl
  number_lem n false = refl

  pub fits : (n : ℕ) (hardened : Bool) → n < 2 ^ 31 → bip32_number n hardened < 2 ^ 32
  fits n true small = omega arith
  fits n false small = omega arith

  pub fingerprint_lem :
      (parent : ExtendedPrivateKey) (sk : Bytes)
      → curve.private_key parent.secret_key.buf ≡ ok sk
      → fingerprint h curve parent ≡ ok (bip32_fingerprint h (curve.public_key sk))
  unfolding fingerprint
  fingerprint_lem parent sk e = rw e refl

  -- A parent that has a fingerprint has a key that the curve takes.
  pub fingerprint-eq-ok :
      (parent : ExtendedPrivateKey) (fp : Bytes)
      → fingerprint h curve parent ≡ ok fp
      → (sk : Bytes) × (curve.private_key parent.secret_key.buf ≡ ok sk)
        × (fp ≡ bip32_fingerprint h (curve.public_key sk))
  unfolding fingerprint
  fingerprint-eq-ok parent fp e =
      let (sk, taken, last) = >>=-eq-ok (curve.private_key parent.secret_key.buf) _ e in
      (sk, taken, sym (ok-injective last))
