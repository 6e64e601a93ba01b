-- ===== src/Derivation/Returns.antt =====
-- `ExtendedPrivateKey.derive` (src/keystonecrypto/derivation.py) against the child key of BIP-32.
use keystone_crypto.Prelude.{
  ne→==, ℕ, ◌+◌, ◌%◌, ◌^◌, ◌<◌, ◌≡◌, ◌≢◌, sym, ap, ◌∙◌, [], Bool, length, length-drop, take, drop,
  lt→ltb, le→ltb, arith,
}
use keystone_crypto.Digits.{digits, length-digits}
use keystone_crypto.Errors.{ok}
use keystone_crypto.Bytes.{Bytes, pos, from_bytes, to_bytes_fits}
use keystone_crypto.Hashes.{Hashes, IsHashes}
use keystone_crypto.Envelope.Plaintext.{new_of_ne-nil}
use keystone_crypto.Signing.{Secp256k1}
use keystone_crypto.Derivation.{
  ExtendedPrivateKey, secp256k1_n, max_child_index, derive_index, derive,
}
use keystone_crypto.Derivation.Bip32.{
  bip32_data, bip32_number, child_data_lem, number_lem, fits, fingerprint_lem,
}
use keystone_crypto.Derivation.Children.{mod_bound, below_order}

module _ (h : Hashes) (curve : Secp256k1) where
  long : (b : Bytes) (w : ℕ) → length b ≡ w → 0 < w → b ≢ []
  long b w e w_pos nil = absurd (omega (arith, ap length nil))

  -- For an index below 2 ^ 31 and a parent whose key the curve takes, `derive` returns if the left half
  -- of the hash is below the group order and the child's key is not zero, and the hash functions return
  -- what their standards say. The child is the one of BIP-32: the hash is that of the parent's private or
  -- public key and the child number, its left half is added to the key, its right half is the chain code,
  -- and the fingerprint is that of the parent's public key.
  pub derive_returns :
      IsHashes h
      → (parent : ExtendedPrivateKey) (sk : Bytes) (n : ℕ) (hardened : Bool) (i : Bytes)
      → n < 2 ^ 31
      → curve.private_key parent.secret_key.buf ≡ ok sk
      → h.hmac_sha512 parent.chain_code.buf
          (bip32_data parent.secret_key.buf (curve.public_key sk) n hardened)
        ≡ i
      → from_bytes (take 32 i) < secp256k1_n
      → (from_bytes (take 32 i) + from_bytes parent.secret_key.buf) % secp256k1_n ≢ 0
      → derive h curve parent (pos n) hardened
        ≡ ok (record {
          secret_key = record {
            buf =
                digits 256 32
                  ((from_bytes (take 32 i) + from_bytes parent.secret_key.buf) % secp256k1_n);
          };
          chain_code = record { buf = drop 32 i };
          depth = parent.depth + 1;
          parent_fingerprint = take 4 (h.ripemd160 (h.sha256 (curve.public_key sk)));
          child_number = bip32_number n hardened;
        })
  unfolding derive derive_index
  derive_returns laws parent sk n hardened i small e hashed il_small ne =
      let k : ℕ = (from_bytes (take 32 i) + from_bytes parent.secret_key.buf) % secp256k1_n in
      let i_length : length i ≡ 64 = ap length (sym hashed) ∙ laws.length-hmac_sha512 _ _ in
      rw (
        le→ltb 0x7FFFFFFF n (omega arith),
        number_lem h curve n hardened,
        le→ltb max_child_index (bip32_number n hardened)
            (omega (arith, fits h curve n hardened small)),
        child_data_lem h curve parent sk n hardened small e,
        hashed,
        lt→ltb (from_bytes (take 32 i)) secp256k1_n il_small,
        ne→== k 0 ne,
        (to_bytes_fits 32 k (
            omega (
              arith,
              below_order,
              mod_bound (from_bytes (take 32 i) + from_bytes parent.secret_key.buf),
            ))).0,
        new_of_ne-nil (digits 256 32 k)
            (long (digits 256 32 k) 32 (length-digits 256 32 k) (omega arith)),
        new_of_ne-nil (drop 32 i)
            (long (drop 32 i) 32 (length-drop 32 i ∙ omega arith) (omega arith)),
        fingerprint_lem h curve parent sk e,
      )
