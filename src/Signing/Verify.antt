-- ===== src/Signing/Verify.antt =====
-- `Signature.verify` and the signers (src/keystonecrypto/signing.py).
use keystone_crypto.Prelude.{
  ne→==, ℕ, arith, take, drop, ◌==◌, ◌⊎◌, ◌||◌, not, length-take, length-drop, ◌≡◌, ◌≢◌, refl, sym,
  ap, ◌∙◌, ◌++◌, true, false, none, Option, length, drop, take-append, drop-append, replicate,
  Bool-cases, inl, inr,
}
use keystone_crypto.Errors.{ok, ok-injective, >>=-eq-ok}
use keystone_crypto.Bytes.{ne→equal, Bytes, equal}
use keystone_crypto.Hashes.{Hashes}
use keystone_crypto.Signing.{
  or_own, ecdsa, ed25519, Secp256k1, Ed25519, Signer, Signature, schnorr, der_to_rs, rs_to_der,
  sign, verify, verify_ecdsa, or_false,
}
use keystone_crypto.Signing.StrictDer.{StrictDer, rs_to_der-StrictDer}
use keystone_crypto.Signing.Der.{der_to_rs-rs_to_der}

-- What coincurve documents: an ECDSA signature is the strict DER form of two numbers and verifies
-- under the signer's public key, and a Schnorr signature has 64 bytes, which are not all zero.
pub record IsSecp256k1 (curve : Secp256k1) : Type 0 where
  pub strict_der : (sk digest der : Bytes) → curve.sign sk digest ≡ ok der → StrictDer der
  pub verifies :
      (sk digest der : Bytes)
      → curve.sign sk digest ≡ ok der
      → curve.verify (curve.public_key sk) der digest ≡ ok true
  pub schnorr_shape :
      (sk digest aux sig : Bytes)
      → curve.sign_schnorr sk digest aux ≡ ok sig
      → (length sig ≡ 64) × (sig ≢ replicate 64 0)

-- What `cryptography` documents of Ed25519.
pub record IsEd25519 (ed : Ed25519) : Type 0 where
  pub verifies :
      (sk message : Bytes) → ed.verify (ed.public_key sk) (ed.sign sk message) message ≡ ok tt

-- One of the halves has not 32 bytes.
parts_refused :
    (raw : Bytes)
    → length raw ≢ 64
    → (not (length (take 32 raw) == 32) || not (length (drop 32 raw) == 32)) ≡ true
parts_refused raw ne =
    elim (Bool-cases (not (length (take 32 raw) == 32) || not (length (drop 32 raw) == 32))) [
      | inl refused ↦ refused
      | inr accepted ↦
          let (a, b) = halves (length (take 32 raw)) (length (drop 32 raw)) accepted in
          absurd (ne (omega (arith, a, b, length-take 32 raw, length-drop 32 raw)))
    ]
  where
    halves : (a b : ℕ) → (not (a == 32) || not (b == 32)) ≡ false → (a ≡ 32) × (b ≡ 32)
    halves a b e = (ground arith, ground arith)

module _ (h : Hashes) (curve : Secp256k1) (ed : Ed25519) where
  -- A Schnorr signature of any 64 bytes that are not all zero verifies, whatever the message and the
  -- public key are.
  pub verify_schnorr_any :
      (raw own message : Bytes) (public_key : Option Bytes)
      → length raw ≡ 64
      → raw ≢ replicate 64 0
      → verify h curve ed
          (record { scheme = schnorr; raw = raw; public_key = own })
          message
          public_key
        ≡ ok true
  unfolding verify equal
  verify_schnorr_any raw own message public_key size ne =
      rw (size, ne→equal raw (replicate 64 0) ne) refl

  -- A signature that a signer makes for the Schnorr scheme.
  schnorr_made :
      IsSecp256k1 curve
      → (signer : Signer) (message aux : Bytes) (sig : Signature)
      → sign h curve ed signer message aux ≡ ok sig
      → sig.scheme ≡ schnorr
      → (own : Bytes) × (raw : Bytes) × (sig
          ≡ record { scheme = schnorr; raw = raw; public_key = own })
        × (length raw ≡ 64)
        × (raw ≢ replicate 64 0)
  unfolding sign
  schnorr_made is_curve (Signer.secp256k_signer sk) message aux sig e named =
      let (der, _, after) = >>=-eq-ok (curve.sign sk (h.sha256 message)) _ e in
      let (rs, _, last) = >>=-eq-ok (der_to_rs der) _ after in
      absurd (no_ecdsa (ap (λ (t : Signature). t.scheme) (ok-injective last) ∙ named))
    where
      no_ecdsa : ecdsa ≡ schnorr → ⊥
      no_ecdsa h = cc
  schnorr_made is_curve (Signer.secp256k_schnorr_signer sk) message aux sig e named =
      let (raw, signed, last) = >>=-eq-ok (curve.sign_schnorr sk (h.sha256 message) aux) _ e in
      let (size, ne) = is_curve.schnorr_shape sk (h.sha256 message) aux raw signed in
      (drop 1 (curve.public_key sk), raw, sym (ok-injective last), size, ne)
  schnorr_made is_curve (Signer.ed25519_signer sk) message aux sig e named =
      absurd (no_ed25519 (ap (λ (t : Signature). t.scheme) (ok-injective e) ∙ named))
    where
      no_ed25519 : ed25519 ≡ schnorr → ⊥
      no_ed25519 h = cc

  -- What any signer signs for the Schnorr scheme, verifies for every other message and under every other
  -- public key too.
  pub schnorr_unbound :
      IsSecp256k1 curve
      → (signer : Signer) (message aux : Bytes) (sig : Signature)
      → sign h curve ed signer message aux ≡ ok sig
      → sig.scheme ≡ schnorr
      → (other_message : Bytes) (other_key : Option Bytes)
      → verify h curve ed sig other_message other_key ≡ ok true
  schnorr_unbound is_curve signer message aux sig e named other_message other_key =
      let (own, raw, same, size, ne) = schnorr_made is_curve signer message aux sig e named in
      rw same (verify_schnorr_any raw own other_message other_key size ne)

  verify_ecdsa-der :
      (r s der message pk : Bytes)
      → length r ≡ 32
      → rs_to_der r s ≡ ok der
      → verify_ecdsa h curve ed (r ++ s) message pk
        ≡ or_false (curve.verify pk der (h.sha256 message))
  unfolding verify_ecdsa
  verify_ecdsa-der r s der message pk hr e = rw (take-append 32 r s hr, drop-append 32 r s hr, e)

  -- What a signer signs, `verify` accepts under the signer's own public key, for each of the three
  -- schemes, if the libraries do what they document.
  pub verify-sign :
      IsSecp256k1 curve
      → IsEd25519 ed
      → (signer : Signer) (message aux : Bytes) (sig : Signature)
      → sign h curve ed signer message aux ≡ ok sig
      → verify h curve ed sig message none ≡ ok true
  unfolding sign verify equal or_false
  verify-sign is_curve is_ed (Signer.secp256k_signer sk) message aux sig e =
      let (der, signed, after) = >>=-eq-ok (curve.sign sk (h.sha256 message)) _ e in
      let strict : StrictDer der = is_curve.strict_der sk (h.sha256 message) der signed in
      let r : Bytes = strict.r in
      let s : Bytes = strict.s in
      let written : rs_to_der r s ≡ ok der = rs_to_der-StrictDer der strict in
      let (rs, decoded, last) = >>=-eq-ok (der_to_rs der) _ after in
      let (der', written', back, _) = der_to_rs-rs_to_der r s strict.length-r strict.length-s in
      let same_der : der' ≡ der = ok-injective (sym written' ∙ written) in
      let same : (r, s) ≡ rs = ok-injective (sym back ∙ ap der_to_rs same_der ∙ decoded) in
      rw
        (
          ← ok-injective last,
          ← same,
          verify_ecdsa-der r s der message (curve.public_key sk) strict.length-r written,
          is_curve.verifies sk (h.sha256 message) der signed,
        )
        refl
  verify-sign is_curve is_ed (Signer.secp256k_schnorr_signer sk) message aux sig e =
      let (raw, signed, last) = >>=-eq-ok (curve.sign_schnorr sk (h.sha256 message) aux) _ e in
      let (size, ne) = is_curve.schnorr_shape sk (h.sha256 message) aux raw signed in
      rw (← ok-injective last)
        (verify_schnorr_any raw (drop 1 (curve.public_key sk)) message none size ne)
  verify-sign is_curve is_ed (Signer.ed25519_signer sk) message aux sig e =
      rw (← ok-injective e, is_ed.verifies sk message) refl

  short_part :
      (raw message pk : Bytes) → length raw ≢ 64 → verify_ecdsa h curve ed raw message pk ≡ false
  unfolding verify_ecdsa rs_to_der or_false
  short_part raw message pk ne = rw (parts_refused raw ne) refl

  -- A signature of the two schemes on secp256k1 that has not 64 bytes does not verify, whatever the
  -- message and the public key are.
  pub verify_malformed :
      (sig : Signature) (message : Bytes) (public_key : Option Bytes)
      → (sig.scheme ≡ ecdsa) ⊎ (sig.scheme ≡ schnorr)
      → length sig.raw ≢ 64
      → verify h curve ed sig message public_key ≡ ok false
  unfolding verify equal or_own
  verify_malformed sig message public_key (inl is_ecdsa) ne =
      rw (is_ecdsa, short_part sig.raw message (or_own public_key sig.public_key) ne) refl
  verify_malformed sig message public_key (inr is_schnorr) ne =
      rw (is_schnorr, ne→== (length sig.raw) 64 ne) refl
