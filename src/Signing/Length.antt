-- ===== src/Signing/Length.antt =====
-- The length of what `_der_to_rs` and `Secp256kSigner.sign` (src/keystonecrypto/signing.py) return.
use keystone_crypto.Prelude.{
  ℕ, ◌+◌, ◌-◌, ◌≤◌, ◌≡◌, sym, ap, ◌∙◌, true, ◌||◌, not, length, length-append, length-replicate,
  slice, replicate, ltb, ◌==◌, arith,
}
use keystone_crypto.Errors.{ok, ok-injective, >>=-eq-ok, require-eq-ok}
use keystone_crypto.Bytes.{Bytes, index}
use keystone_crypto.Hashes.{Hashes}
use keystone_crypto.Signing.{
  Secp256k1, Ed25519, Signature, Signer, rjust, drop_sign, der_to_rs, sign,
}

length-rjust : (b : Bytes) → length b ≤ 32 → length (rjust 32 b) ≡ 32
unfolding rjust
length-rjust b h =
    length-append (replicate (32 - length b) 0) b
    ∙ omega (arith, length-replicate {A = ℕ} (32 - length b) 0)

both_short : (a b : ℕ) → not (ltb 32 a || ltb 32 b) ≡ true → (a ≤ 32) × (b ≤ 32)
both_short a b h = (ground arith, ground arith)

-- Whatever bytes it is given, `der_to_rs` returns two numbers of 32 bytes or raises.
length-der_to_rs :
    (der : Bytes) (rs : Bytes × Bytes)
    → der_to_rs der ≡ ok rs
    → (length rs.0 ≡ 32) × (length rs.1 ≡ 32)
unfolding der_to_rs
length-der_to_rs der rs e =
    let (tag, _, e1) = >>=-eq-ok (index der 0) _ e in
    let (_, e2) = require-eq-ok (tag == 0x30) _ _ e1 in
    let (len, _, e3) = >>=-eq-ok (index der 1) _ e2 in
    let (_, e4) = require-eq-ok (len + 2 == length der) _ _ e3 in
    let (r_tag, _, e5) = >>=-eq-ok (index der 2) _ e4 in
    let (_, e6) = require-eq-ok (r_tag == 0x02) _ _ e5 in
    let (r_len, _, e7) = >>=-eq-ok (index der 3) _ e6 in
    let (s_tag, _, e8) = >>=-eq-ok (index der (4 + r_len)) _ e7 in
    let (_, e9) = require-eq-ok (s_tag == 0x02) _ _ e8 in
    let (s_len, _, e10) = >>=-eq-ok (index der (4 + r_len + 1)) _ e9 in
    let r : Bytes = drop_sign (slice 4 (4 + r_len) der) in
    let s : Bytes = drop_sign (slice (4 + r_len + 2) (4 + r_len + 2 + s_len) der) in
    let (short, last) = require-eq-ok (not (ltb 32 (length r) || ltb 32 (length s))) _ _ e10 in
    let (hr, hs) = both_short (length r) (length s) short in
    let same : (rjust 32 r, rjust 32 s) ≡ rs = ok-injective last in
    (
      ap (λ (x : Bytes × Bytes). length x.0) (sym same) ∙ length-rjust r hr,
      ap (λ (x : Bytes × Bytes). length x.1) (sym same) ∙ length-rjust s hs,
    )

-- An ECDSA signature that a signer returns has 64 bytes, whatever the curve library returned.
pub length-sign :
    (h : Hashes) (curve : Secp256k1) (ed : Ed25519) (sk message aux : Bytes) (sig : Signature)
    → sign h curve ed (Signer.secp256k_signer sk) message aux ≡ ok sig
    → length sig.raw ≡ 64
unfolding sign
length-sign h curve ed sk message aux sig e =
    let (der, _, after) = >>=-eq-ok (curve.sign sk (h.sha256 message)) _ e in
    let (rs, decoded, last) = >>=-eq-ok (der_to_rs der) _ after in
    let (hr, hs) = length-der_to_rs der rs decoded in
    ap (λ (x : Signature). length x.raw) (sym (ok-injective last))
    ∙ length-append rs.0 rs.1
    ∙ omega arith
