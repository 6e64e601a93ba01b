-- ===== src/Derivation/Serialized.antt =====
-- The bytes that `ExtendedPrivateKey.to_base58` (src/keystonecrypto/derivation.py) encodes.
use keystone_crypto.Prelude.{
  suc, Bool, length-take, ◌^◌, ◌<◌, ◌≡◌, refl, sym, ap, ◌∙◌, [], ◌∷◌, ◌++◌, length, length-append,
  slice, drop, slice-append, drop-append, arith,
}
use mathlib.Core.List.{append_assoc}
use keystone_crypto.Digits.{digits, length-digits, value-digits_of_lt}
use keystone_crypto.Errors.{ok, ok-injective, >>=-eq-ok}
use keystone_crypto.Bytes.{pack_u32_fits, Bytes, ℤ, byte_fits, from_bytes}
use keystone_crypto.Hashes.{Hashes, IsHashes}
use keystone_crypto.Signing.{Secp256k1}
use keystone_crypto.Derivation.{ExtendedPrivateKey, serialized, fingerprint, derive}
use keystone_crypto.Derivation.Bip32.{fits, fingerprint_lem}
use keystone_crypto.Derivation.Children.{derive-IsChild}

-- Where BIP-32 puts the fields of a key.
pub record IsSerialized (raw version : Bytes) (key : ExtendedPrivateKey) : Type 0 where
  pub length-raw : length raw ≡ 78
  pub version_at : slice 0 4 raw ≡ version
  pub depth_at : slice 4 5 raw ≡ key.depth ∷ []
  pub fingerprint_at : slice 5 9 raw ≡ key.parent_fingerprint
  pub number_at : from_bytes (slice 9 13 raw) ≡ key.child_number
  pub code_at : slice 13 45 raw ≡ key.chain_code.buf
  pub key_at : drop 45 raw ≡ 0 ∷ key.secret_key.buf

-- The shape of a key that `master` and `derive` return, at less than 256 levels.
pub record IsKey (key : ExtendedPrivateKey) : Type 0 where
  pub depth_fits : key.depth < 256
  pub length-fingerprint : length key.parent_fingerprint ≡ 4
  pub number_fits : key.child_number < 2 ^ 32
  pub length-code : length key.chain_code.buf ≡ 32
  pub length-key : length key.secret_key.buf ≡ 32

-- Six parts one behind the other.
module _ (a b c d e f : Bytes) (ha : length a ≡ 4) (hb : length b ≡ 1) (hc : length c ≡ 4)
    (hd : length d ≡ 4) (he : length e ≡ 32) (hf : length f ≡ 33) where
  abbrev whole : Bytes
  whole = a ++ (b ++ (c ++ (d ++ (e ++ f))))

  length-whole : length whole ≡ 78
  length-whole =
      length-append a (b ++ (c ++ (d ++ (e ++ f))))
      ∙ omega (
        arith,
        length-append b (c ++ (d ++ (e ++ f))),
        length-append c (d ++ (e ++ f)),
        length-append d (e ++ f),
        length-append e f,
      )

  first : slice 0 4 whole ≡ a
  first = slice-append 0 4 [] a (b ++ (c ++ (d ++ (e ++ f)))) refl (omega arith)

  second : slice 4 5 whole ≡ b
  second = slice-append 4 5 a b (c ++ (d ++ (e ++ f))) ha (omega arith)

  third : slice 5 9 whole ≡ c
  third =
      ap (slice 5 9) (sym (append_assoc a b (c ++ (d ++ (e ++ f)))))
      ∙ slice-append 5 9 (a ++ b) c (d ++ (e ++ f)) (length-append a b ∙ omega arith) (omega arith)

  to_fourth : whole ≡ (a ++ (b ++ c)) ++ (d ++ (e ++ f))
  to_fourth = simp append_assoc

  fourth : slice 9 13 whole ≡ d
  fourth =
      ap (slice 9 13) to_fourth
      ∙ slice-append 9 13 (a ++ (b ++ c)) d (e ++ f)
          (length-append a (b ++ c) ∙ omega (arith, length-append b c)) (omega arith)

  to_fifth : whole ≡ (a ++ (b ++ (c ++ d))) ++ (e ++ f)
  to_fifth = simp append_assoc

  length-to_fifth : length (a ++ (b ++ (c ++ d))) ≡ 13
  length-to_fifth =
      length-append a (b ++ (c ++ d)) ∙ omega (arith, length-append b (c ++ d), length-append c d)

  fifth : slice 13 45 whole ≡ e
  fifth =
      ap (slice 13 45) to_fifth
      ∙ slice-append 13 45 (a ++ (b ++ (c ++ d))) e f length-to_fifth (omega arith)

  sixth : drop 45 whole ≡ f
  sixth =
      ap (drop 45) (to_fifth ∙ sym (append_assoc (a ++ (b ++ (c ++ d))) e f))
      ∙ drop-append 45 ((a ++ (b ++ (c ++ d))) ++ e) f
          (length-append (a ++ (b ++ (c ++ d))) e ∙ omega (arith, length-to_fifth))

module _ (h : Hashes) (curve : Secp256k1) where
  serialized-IsSerialized :
      (version : Bytes) (key : ExtendedPrivateKey)
      → length version ≡ 4
      → IsKey key
      → (raw : Bytes) × (serialized h curve version key ≡ ok raw) × IsSerialized raw version key
  unfolding serialized
  serialized-IsSerialized version key hv k =
      let b : Bytes = key.depth ∷ [] in
      let c : Bytes = key.parent_fingerprint in
      let d : Bytes = digits 256 4 key.child_number in
      let hd : length d ≡ 4 = length-digits 256 4 key.child_number in
      let e : Bytes = key.chain_code.buf in
      let f : Bytes = 0 ∷ key.secret_key.buf in
      let hf : length f ≡ 33 = ap suc k.length-key in
      (
        version ++ (b ++ (c ++ (d ++ (e ++ f)))),
        rw (byte_fits key.depth k.depth_fits, pack_u32_fits key.child_number k.number_fits) refl,
        record {
          length-raw =
              length-whole version b c d e f hv refl k.length-fingerprint hd k.length-code hf;
          version_at = first version b c d e f hv refl k.length-fingerprint hd k.length-code hf;
          depth_at = second version b c d e f hv refl k.length-fingerprint hd k.length-code hf;
          fingerprint_at = third version b c d e f hv refl k.length-fingerprint hd k.length-code hf;
          number_at =
              ap from_bytes
                (fourth version b c d e f hv refl k.length-fingerprint hd k.length-code hf)
              ∙ value-digits_of_lt 256 4 key.child_number (omega arith)
                  (omega (arith, k.number_fits));
          code_at = fifth version b c d e f hv refl k.length-fingerprint hd k.length-code hf;
          key_at = sixth version b c d e f hv refl k.length-fingerprint hd k.length-code hf;
        },
      )

  pub length-fingerprint :
      IsHashes h
      → (key : ExtendedPrivateKey) (fp : Bytes) → fingerprint h curve key ≡ ok fp
      → length fp ≡ 4
  unfolding fingerprint
  length-fingerprint laws key fp e =
      let (sk, _, last) = >>=-eq-ok (curve.private_key key.secret_key.buf) _ e in
      let digest : Bytes = h.ripemd160 (h.sha256 (curve.public_key sk)) in
      ap length (sym (ok-injective last))
      ∙ length-take 4 digest
      ∙ omega (arith, laws.length-ripemd160 (h.sha256 (curve.public_key sk)))

  -- A child that was derived from a key at less than 255 levels is serialised in 78 bytes, with its
  -- depth, the parent's fingerprint, the child number, the chain code and the key at the places that
  -- BIP-32 gives them, behind the four bytes of the version. The hash functions return what their
  -- standards say.
  pub serialized-derive :
      IsHashes h
      → (parent child : ExtendedPrivateKey) (i : ℤ) (hardened : Bool) (version : Bytes)
      → derive h curve parent i hardened ≡ ok child
      → parent.depth < 255
      → length version ≡ 4
      → (raw : Bytes) × (serialized h curve version child ≡ ok raw) × IsSerialized raw version child
  serialized-derive laws parent child i hardened version made shallow hv =
      let (n, _, small, is_child, _) = derive-IsChild h laws curve parent child i hardened made in
      serialized-IsSerialized version child hv (record {
        depth_fits = omega (arith, is_child.deeper);
        length-fingerprint = length-fingerprint laws parent child.parent_fingerprint (
            fingerprint_lem h curve parent is_child.sk is_child.parent_taken
            ∙ ap ok (sym is_child.from_parent));
        number_fits = omega (arith, is_child.number, fits h curve n hardened small);
        length-code = is_child.length-code;
        length-key = is_child.length-key;
      })
