-- ===== src/Derivation/Ckd.antt =====
-- `ExtendedPrivateKey.derive` (src/keystonecrypto/derivation.py) on every index, against CKDpriv of
-- BIP-32.
use keystone_crypto.Prelude.{
  ℕ, ◌+◌, ◌%◌, ◌^◌, ◌<◌, ◌≡◌, ◌≢◌, refl, Bool, true, false, not, ◌&&◌, Option, none, some, take,
  drop, ltb, ◌==◌, ltb→lt, le→ltb, if◌then◌else◌, Bool-cases, inl, inr, arith,
}
use keystone_crypto.Digits.{digits}
use keystone_crypto.Errors.{Error, Result, ok, err}
use keystone_crypto.Bytes.{Bytes, ℤ, pos, negsuc, from_bytes}
use keystone_crypto.Hashes.{Hashes, IsHashes}
use keystone_crypto.Signing.{Secp256k1}
use keystone_crypto.Derivation.{
  ExtendedPrivateKey, secp256k1_n, max_child_index, derive_index, derive,
}
use keystone_crypto.Derivation.Bip32.{bip32_data, bip32_number, child_data_lem, number_lem, fits}
use keystone_crypto.Derivation.Returns.{derive_returns}

-- Where BIP-32 has no child, the code raises `ValueError`.
abbrev pub or_value_error : {A : Type 0} → Option A → Result A
or_value_error none = err Error.value_error
or_value_error (some a) = ok a

conditions : (a b n : ℕ) → (ltb a n && not (b == 0)) ≡ true → (a < n) × (b ≢ 0)
conditions a b n h = (ground arith, λ zero. absurd (not_both zero))
  where
    not_both : b ≡ 0 → ⊥
    not_both zero = ground arith

module _ (h : Hashes) (curve : Secp256k1) where
  -- The child that BIP-32 makes of a parent, whose key the curve takes as `sk`, and an index of 31 bits.
  unfoldable pub ckd_priv : ExtendedPrivateKey → Bytes → ℕ → Bool → Option ExtendedPrivateKey
  ckd_priv parent sk n hardened =
      let i =
        h.hmac_sha512 parent.chain_code.buf
          (bip32_data parent.secret_key.buf (curve.public_key sk) n hardened) in
      let k = (from_bytes (take 32 i) + from_bytes parent.secret_key.buf) % secp256k1_n in
      if ltb (from_bytes (take 32 i)) secp256k1_n && not (k == 0)
      then some (record {
        secret_key = record { buf = digits 256 32 k };
        chain_code = record { buf = drop 32 i };
        depth = parent.depth + 1;
        parent_fingerprint = take 4 (h.ripemd160 (h.sha256 (curve.public_key sk)));
        child_number = bip32_number n hardened;
      })
      else none

  -- The same for any number as index.
  unfoldable pub ckd_priv_at : ExtendedPrivateKey → Bytes → ℤ → Bool → Option ExtendedPrivateKey
  ckd_priv_at parent sk (negsuc n) hardened = none
  ckd_priv_at parent sk (pos n) hardened =
      if ltb n (2 ^ 31) then ckd_priv parent sk n hardened else none

  derive_refuses :
      (parent : ExtendedPrivateKey) (sk : Bytes) (n : ℕ) (hardened : Bool) (i : Bytes)
      → n < 2 ^ 31
      → curve.private_key parent.secret_key.buf ≡ ok sk
      → h.hmac_sha512 parent.chain_code.buf
          (bip32_data parent.secret_key.buf (curve.public_key sk) n hardened)
        ≡ i
      → (ltb (from_bytes (take 32 i)) secp256k1_n
          && not ((from_bytes (take 32 i) + from_bytes parent.secret_key.buf) % secp256k1_n == 0))
        ≡ false
      → derive h curve parent (pos n) hardened ≡ err Error.value_error
  unfolding derive derive_index
  derive_refuses parent sk n hardened i small e hashed bad =
      rw
        (
          le→ltb 0x7FFFFFFF n (omega arith),
          number_lem h curve n hardened,
          le→ltb max_child_index (bip32_number n hardened)
              (omega (arith, fits h curve n hardened small)),
          child_data_lem h curve parent sk n hardened small e,
          hashed,
        )
        (elim (Bool-cases (ltb (from_bytes (take 32 i)) secp256k1_n)) [
          | inr above ↦ rw above refl
          | inl below ↦ elim (Bool-cases (k == 0)) [
            | inl zero ↦ rw (below, zero) refl
            | inr other ↦
                absurd
                  (both_hold (ltb (from_bytes (take 32 i)) secp256k1_n) (k == 0) below other bad)
          ]
        ])
    where
      k : ℕ
      k = (from_bytes (take 32 i) + from_bytes parent.secret_key.buf) % secp256k1_n

      both_hold : (a b : Bool) → a ≡ true → b ≡ false → (a && not b) ≡ false → ⊥
      both_hold a b ha hb bad = ground arith

  out_of_range :
      (parent : ExtendedPrivateKey) (n : ℕ) (hardened : Bool)
      → ltb n (2 ^ 31) ≡ false
      → derive h curve parent (pos n) hardened ≡ err Error.value_error
  unfolding derive
  out_of_range parent n hardened large = rw (above n large) refl
    where
      above : (n : ℕ) → ltb n (2 ^ 31) ≡ false → ltb 0x7FFFFFFF n ≡ true
      above n large = ground arith

  -- For a parent whose key the curve takes, `derive` agrees with CKDpriv of BIP-32 on every index,
  -- hardened or not: it returns that child, and raises `ValueError` exactly where BIP-32 has no child,
  -- the left half of the hash not being below the group order, or the child's key being zero, and for a
  -- negative index or one of 2 ^ 31 and more. The hash functions return what their standards say.
  pub derive-ckd_priv_at :
      IsHashes h
      → (parent : ExtendedPrivateKey) (sk : Bytes) (i : ℤ) (hardened : Bool)
      → curve.private_key parent.secret_key.buf ≡ ok sk
      → derive h curve parent i hardened ≡ or_value_error (ckd_priv_at parent sk i hardened)
  unfolding ckd_priv_at ckd_priv
  derive-ckd_priv_at laws parent sk (negsuc n) hardened e = unfold derive in refl
  derive-ckd_priv_at laws parent sk (pos n) hardened e = elim (Bool-cases (ltb n (2 ^ 31))) [
    | inr large ↦ rw large (out_of_range parent n hardened large)
    | inl small ↦ elim (Bool-cases (possible (hash_of_child n))) [
      | inl there ↦
          rw (small, there)
            (derive_returns h curve laws parent sk n hardened (hash_of_child n) (ltb→lt n _ small) e
              refl (possible_lem (hash_of_child n) there).0
              (possible_lem (hash_of_child n) there).1)
      | inr none_such ↦
          rw (small, none_such)
            (derive_refuses parent sk n hardened (hash_of_child n) (ltb→lt n _ small) e refl
              none_such)
    ]
  ]
    where
      hash_of_child : ℕ → Bytes
      hash_of_child n =
          h.hmac_sha512 parent.chain_code.buf
            (bip32_data parent.secret_key.buf (curve.public_key sk) n hardened)

      possible : Bytes → Bool
      possible i =
          ltb (from_bytes (take 32 i)) secp256k1_n
          && not ((from_bytes (take 32 i) + from_bytes parent.secret_key.buf) % secp256k1_n == 0)

      possible_lem :
          (i : Bytes)
          → possible i ≡ true
          → (from_bytes (take 32 i) < secp256k1_n)
            × ((from_bytes (take 32 i) + from_bytes parent.secret_key.buf) % secp256k1_n ≢ 0)
      possible_lem i = conditions (from_bytes (take 32 i)) _ secp256k1_n
