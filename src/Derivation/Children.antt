-- ===== src/Derivation/Children.antt =====
-- `ExtendedPrivateKey.derive` and the loop of `derive_from_seed` (src/keystonecrypto/derivation.py).
use keystone_crypto.Prelude.{
  ℕ, ◌+◌, ◌%◌, ◌^◌, ◌≤◌, ◌<◌, ◌≡◌, refl, sym, ap, ◌∙◌, List, [], ◌∷◌, ◌++◌, Bool, true, false, not,
  length, length-drop, take, drop, ltb, ltb→lt, ◌==◌, arith,
}
use mathlib.Core.Logic.{◌↔◌}
use keystone_crypto.Digits.{digits, length-digits, digits-AreDigits}
use keystone_crypto.Errors.{
  ok, ok-injective, ◌>>=◌, >>=-eq-ok, unless-eq-ok, require-eq-ok, >>=-assoc, >>=-pointwise,
}
use keystone_crypto.Bytes.{Bytes, AreBytes, ℤ, pos, negsuc, from_bytes, to_bytes, to_bytes_fits}
use keystone_crypto.Hashes.{Hashes, IsHashes}
use keystone_crypto.SecretBytes.{SecretBytes, new}
use keystone_crypto.Signing.{Secp256k1}
use keystone_crypto.Derivation.{
  ExtendedPrivateKey, max_child_index, secp256k1_n, effective_index, fingerprint, child_data,
  derive_index, derive, derive_path,
}
use keystone_crypto.Derivation.Bip32.{
  bip32_data, bip32_number, bip32_fingerprint, child_data_lem, number_lem, fingerprint-eq-ok,
}

pub new-eq-ok : (b : Bytes) (s : SecretBytes) → new b ≡ ok s → s.buf ≡ b
unfolding new
new-eq-ok b s h =
    ap (λ (t : SecretBytes). t.buf) (sym (ok-injective (unless-eq-ok (length b == 0) _ _ h).1))

pub mod_bound : (x : ℕ) → x % secp256k1_n < secp256k1_n
mod_bound x = omega arith

pub below_order : secp256k1_n < 256 ^ 32
below_order = omega arith

-- What BIP-32 asks of the child of `parent` at the index `n`, hardened or not.
pub record IsChild (h : Hashes) (curve : Secp256k1) (parent child : ExtendedPrivateKey) (n : ℕ)
    (hardened : Bool) : Type 0 where
  pub sk : Bytes
  pub parent_taken : curve.private_key parent.secret_key.buf ≡ ok sk
  pub hashed : Bytes
  pub hash_of :
      hashed
      ≡ h.hmac_sha512 parent.chain_code.buf
          (bip32_data parent.secret_key.buf (curve.public_key sk) n hardened)
  pub left_lt : from_bytes (take 32 hashed) < secp256k1_n
  pub key :
      from_bytes child.secret_key.buf
      ≡ (from_bytes (take 32 hashed) + from_bytes parent.secret_key.buf) % secp256k1_n
  pub key_pos : 0 < from_bytes child.secret_key.buf
  pub key_lt : from_bytes child.secret_key.buf < secp256k1_n
  pub length-key : length child.secret_key.buf ≡ 32
  pub key-AreBytes : AreBytes child.secret_key.buf
  pub code : child.chain_code.buf ≡ drop 32 hashed
  pub length-code : length child.chain_code.buf ≡ 32
  pub deeper : child.depth ≡ parent.depth + 1
  pub number : child.child_number ≡ bip32_number n hardened
  pub from_parent : child.parent_fingerprint ≡ bip32_fingerprint h (curve.public_key sk)

module _ (h : Hashes) (h_laws : IsHashes h) (curve : Secp256k1) where
  child_key :
      (n : ℕ) (key : Bytes) (sk : SecretBytes)
      → n < secp256k1_n
      → to_bytes 32 n ≡ ok key
      → new key ≡ ok sk
      → (from_bytes sk.buf ≡ n) × (length sk.buf ≡ 32) × AreBytes sk.buf
  child_key n key sk small made wrapped =
      let (fits, back) = to_bytes_fits 32 n (omega (arith, below_order)) in
      let same : digits 256 32 n ≡ sk.buf =
        ok-injective (sym fits ∙ made) ∙ sym (new-eq-ok key sk wrapped) in
      rw (← same) (back, length-digits 256 32 n, digits-AreDigits 256 32 n (omega arith))

  data_of_child :
      (parent : ExtendedPrivateKey) (sk d : Bytes) (n : ℕ) (hardened : Bool)
      → n < 2 ^ 31
      → curve.private_key parent.secret_key.buf ≡ ok sk
      → child_data h curve parent (effective_index n hardened) ≡ ok d
      → bip32_data parent.secret_key.buf (curve.public_key sk) n hardened ≡ d
  data_of_child parent sk d n hardened small taken e = ok-injective (
      sym (child_data_lem h curve parent sk n hardened small taken)
      ∙ ap (child_data h curve parent) (sym (number_lem h curve n hardened))
      ∙ e)

  derive_index-IsChild :
      (parent child : ExtendedPrivateKey) (n : ℕ) (hardened : Bool)
      → n < 2 ^ 31
      → derive_index h curve parent (effective_index n hardened) ≡ ok child
      → IsChild h curve parent child n hardened
  unfolding derive_index
  derive_index-IsChild parent child n hardened small e =
      let index : ℕ = effective_index n hardened in
      let (_, e1) = require-eq-ok (not (ltb max_child_index index)) _ _ e in
      let (d, found, e2) = >>=-eq-ok (child_data h curve parent index) _ e1 in
      let i : Bytes = h.hmac_sha512 parent.chain_code.buf d in
      let k : ℕ = (from_bytes (take 32 i) + from_bytes parent.secret_key.buf) % secp256k1_n in
      let (below, e3) = require-eq-ok (ltb (from_bytes (take 32 i)) secp256k1_n) _ _ e2 in
      let (not_zero, e4) = require-eq-ok (not (k == 0)) _ _ e3 in
      let (key, made, e5) = >>=-eq-ok (to_bytes 32 k) _ e4 in
      let (sk, wrapped, e6) = >>=-eq-ok (new key) _ e5 in
      let (cc', code, e7) = >>=-eq-ok (new (drop 32 i)) _ e6 in
      let (fp, printed, last) = >>=-eq-ok (fingerprint h curve parent) _ e7 in
      let (own, taken, fp_of) = fingerprint-eq-ok h curve parent fp printed in
      let (value_of, size, are_bytes) = child_key k key sk (mod_bound _) made wrapped in
      let code_of : cc'.buf ≡ drop 32 i = new-eq-ok (drop 32 i) cc' code in
      rw (← ok-injective last) (record {
        sk = own;
        parent_taken = taken;
        hashed = i;
        hash_of =
            ap (h.hmac_sha512 parent.chain_code.buf)
              (sym (data_of_child parent own d n hardened small taken found));
        left_lt = ltb→lt (from_bytes (take 32 i)) secp256k1_n below;
        key = value_of;
        key_pos = positive k not_zero value_of;
        key_lt = omega (
          arith,
          value_of,
          mod_bound (from_bytes (take 32 i) + from_bytes parent.secret_key.buf),
        );
        length-key = size;
        key-AreBytes = are_bytes;
        code = code_of;
        length-code =
            ap length code_of
            ∙ length-drop 32 i
            ∙ omega (arith, h_laws.length-hmac_sha512 parent.chain_code.buf d);
        deeper = refl;
        number = number_lem h curve n hardened;
        from_parent = fp_of;
      })
    where
      positive : {m : ℕ} (n : ℕ) → not (n == 0) ≡ true → m ≡ n → 0 < m
      positive n h e = ground arith

  in_range : (n : ℕ) → ltb 0x7FFFFFFF n ≡ false → n < 2 ^ 31
  in_range n small = ground arith

  number_of :
      (c n : ℕ) (b : Bool)
      → ltb 0x7FFFFFFF n ≡ false
      → c ≡ bip32_number n b
      → (2 ^ 31 ≤ c) ↔ (b ≡ true)
  number_of c n true small e = (λ x. refl, λ x. omega (arith, e))
  number_of c n false small e = (λ x. absurd (omega (arith, e, x, in_range n small)), λ x. cc)

  -- A derivation that returns was given an index from 0 to 2 ^ 31 - 1, and returns the child that
  -- BIP-32 describes under the child number of that index: the key is the sum of the left half of the
  -- hash and the parent's key modulo the group order, and neither zero nor too large. The child number
  -- is 2 ^ 31 or more exactly for a hardened child. The hash functions return what their standards say.
  pub derive-IsChild :
      (parent child : ExtendedPrivateKey) (i : ℤ) (hardened : Bool)
      → derive h curve parent i hardened ≡ ok child
      → (n : ℕ) × (i ≡ pos n)
        × (n < 2 ^ 31)
        × IsChild h curve parent child n hardened
        × ((2 ^ 31 ≤ child.child_number) ↔ (hardened ≡ true))
  unfolding derive
  derive-IsChild parent child (negsuc n) hardened e = cc
  derive-IsChild parent child (pos n) hardened e =
      let (small, made) = unless-eq-ok (ltb 0x7FFFFFFF n) _ _ e in
      let is_child = derive_index-IsChild parent child n hardened (in_range n small) made in
      (
        n,
        refl,
        in_range n small,
        is_child,
        number_of child.child_number n hardened small is_child.number,
      )

  -- Deriving along a path in two parts is deriving along the first and then along the second.
  pub derive_path-append :
      (key : ExtendedPrivateKey) (p q : List (ℤ × Bool))
      → derive_path h curve key (p ++ q)
        ≡ (derive_path h curve key p >>= λ child. derive_path h curve child q)
  unfolding derive_path
  derive_path-append key [] q = refl
  derive_path-append key ((i, hardened) ∷ p) q =
      >>=-pointwise (derive h curve key i hardened) (λ child. derive_path-append child p q)
      ∙ sym (
          >>=-assoc (derive h curve key i hardened) (λ child. derive_path h curve child p)
            (λ child. derive_path h curve child q))

  -- A key at the end of a path that could be derived is as many levels below the first one as the path
  -- is long.
  pub depth-derive_path :
      (key child : ExtendedPrivateKey) (p : List (ℤ × Bool))
      → derive_path h curve key p ≡ ok child
      → child.depth ≡ key.depth + length p
  unfolding derive_path
  depth-derive_path key child [] e =
      ap (λ (k : ExtendedPrivateKey). k.depth) (sym (ok-injective e)) ∙ omega arith
  depth-derive_path key child ((i, hardened) ∷ p) e =
      let (next, made, rest) = >>=-eq-ok (derive h curve key i hardened) _ e in
      let (n, _, _, is_child, _) = derive-IsChild key next i hardened made in
      depth-derive_path next child p rest ∙ omega (arith, is_child.deeper)
