-- ===== src/Derivation/Exported.antt =====
-- `ExtendedPrivateKey.to_base58` (src/keystonecrypto/derivation.py), read back.
use keystone_crypto.Prelude.{
  ℕ, zero, suc, Bool, ◌*◌, ◌^◌, ◌<◌, ◌≡◌, refl, sym, ◌∙◌, [], ◌∷◌, ◌++◌, length, take, some,
  All-append, All-take, All-drop, Bool-cases, inl, inr, arith,
}
use native.Mathlib.Nat.{one-le-pow}
use keystone_crypto.Digits.{value, value-append, digits-AreDigits}
use keystone_crypto.Errors.{Error, ok, err, ok-injective, >>=-eq-ok}
use keystone_crypto.Bytes.{
  Bytes, AreBytes, ℤ, byte, byte_fits, pack_u32, pack_u32_shape, from_bytes, equal,
}
use keystone_crypto.Text.{Str, codes}
use keystone_crypto.Hashes.{Hashes, IsHashes}
use keystone_crypto.Signing.{Secp256k1}
use keystone_crypto.Base58.Decode.{b58decode, b58decode-b58encode}
use keystone_crypto.Derivation.{ExtendedPrivateKey, version_of, serialized, to_base58, derive}
use keystone_crypto.Derivation.Children.{derive-IsChild}
use keystone_crypto.Derivation.Serialized.{IsSerialized, serialized-derive}

-- The version of a network is four bytes that are not all zero.
version_shape :
    (network : Str) (v : Bytes)
    → version_of network ≡ ok v
    → (length v ≡ 4) × AreBytes v × (0 < from_bytes v)
unfolding version_of
version_shape network v e = elim (Bool-cases (equal network (codes "mainnet"))) [
  | inl main ↦
      let same : 0x04 ∷ 0x88 ∷ 0xad ∷ 0xe4 ∷ [] ≡ v = ok-injective (rw main at e) in
      rw (← same) (refl, ground arith, unfold value in omega arith)
  | inr other ↦ elim (Bool-cases (equal network (codes "testnet"))) [
    | inl test ↦
        let same : 0x04 ∷ 0x35 ∷ 0x83 ∷ 0x94 ∷ [] ≡ v = ok-injective (rw (other, test) at e) in
        rw (← same) (refl, ground arith, unfold value in omega arith)
    | inr none_such ↦ absurd (unknown (rw (other, none_such) at e))
  ]
]
  where
    unknown : err Error.key_error ≡ ok v → ⊥
    unknown h = cc

mul_pos : (m n : ℕ) → 0 < m → 0 < n → 0 < m * n
mul_pos zero n hm hn = absurd (omega arith)
mul_pos (suc m) n hm hn = omega arith

value-append_pos : (v rest : Bytes) → 0 < from_bytes v → 0 < from_bytes (v ++ rest)
value-append_pos v rest h = omega (
  arith,
  value-append 256 v rest,
  mul_pos (from_bytes v) (256 ^ length rest) h (one-le-pow (length rest) 256 (omega arith)),
)

module _ (h : Hashes) (curve : Secp256k1) where
  serialized-AreBytes :
      (version raw : Bytes) (key : ExtendedPrivateKey)
      → serialized h curve version key ≡ ok raw
      → AreBytes version
      → AreBytes key.parent_fingerprint
      → AreBytes key.chain_code.buf
      → AreBytes key.secret_key.buf
      → key.depth < 256
      → AreBytes raw × ((rest : Bytes) × (raw ≡ version ++ rest))
  unfolding serialized
  serialized-AreBytes version raw key e hv hf hc hk hd =
      let (d, made, e1) = >>=-eq-ok (byte key.depth) _ e in
      let (n, packed, last) = >>=-eq-ok (pack_u32 key.child_number) _ e1 in
      let depth_is : key.depth ∷ [] ≡ d = ok-injective (sym (byte_fits key.depth hd) ∙ made) in
      let d_bytes : AreBytes d = rw (← depth_is) (hd, tt) in
      let n_bytes : AreBytes n =
        rw (pack_u32_shape key.child_number n packed).1
          (digits-AreDigits 256 4 key.child_number (omega arith)) in
      rw (← ok-injective last) (
        join version _ hv (
            join d _ d_bytes (
              join key.parent_fingerprint _ hf
                (join n _ n_bytes (join key.chain_code.buf _ hc (omega arith, hk))))),
        (_, refl),
      )
    where
      join : (xs ys : Bytes) → AreBytes xs → AreBytes ys → AreBytes (xs ++ ys)
      join xs ys hx hy = All-append (λ c. c < 256) xs ys hx hy

  -- The key that `to_base58` writes for a child that was derived from a key at less than 255 levels reads
  -- back, as Base58, to the 78 bytes that BIP-32 asks for and the first four bytes of their double
  -- SHA-256. The hash functions return what their standards say.
  pub to_base58-derive :
      IsHashes h
      → (parent child : ExtendedPrivateKey) (i : ℤ) (hardened : Bool) (network : Str)
        (version : Bytes)
      → derive h curve parent i hardened ≡ ok child
      → parent.depth < 255
      → version_of network ≡ ok version
      → (raw : Bytes) × (text : Str) × (to_base58 h curve child network ≡ ok text)
        × (b58decode text ≡ some (raw ++ take 4 (h.sha256 (h.sha256 raw))))
        × IsSerialized raw version child
  unfolding to_base58
  to_base58-derive laws parent child i hardened network version made shallow named =
      let (long, version_bytes, positive) = version_shape network version named in
      let (n, _, small, is_child, _) = derive-IsChild h laws curve parent child i hardened made in
      let (raw, written, is_raw) =
        serialized-derive h curve laws parent child i hardened version made shallow long in
      let (raw_bytes, (rest, starts)) =
        serialized-AreBytes version raw child written version_bytes
          (rw is_child.from_parent (
            All-take (λ c. c < 256) 4 _
              (laws.ripemd160-AreBytes (h.sha256 (curve.public_key is_child.sk)))))
          (rw (is_child.code, is_child.hash_of)
            (All-drop (λ c. c < 256) 32 _ (laws.hmac_sha512-AreBytes parent.chain_code.buf _)))
          is_child.key-AreBytes (omega (arith, is_child.deeper)) in
      let sum : Bytes = take 4 (h.sha256 (h.sha256 raw)) in
      let (text, encoded, decoded) =
        b58decode-b58encode (raw ++ sum)
          (All-append (λ c. c < 256) raw sum raw_bytes
            (All-take (λ c. c < 256) 4 _ (laws.sha256-AreBytes (h.sha256 raw))))
          (value-append_pos raw sum (rw starts (value-append_pos version rest positive))) in
      (raw, text, rw (named, written) encoded, decoded, is_raw)
