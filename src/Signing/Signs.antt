-- ===== src/Signing/Signs.antt =====
-- The three signers return (src/keystonecrypto/signing.py).
use keystone_crypto.Prelude.{◌≡◌, refl, sym, ap, ◌∙◌, true, none, length, ◌++◌, drop}
use keystone_crypto.Errors.{ok, ok-injective}
use keystone_crypto.Bytes.{Bytes}
use keystone_crypto.Hashes.{Hashes, IsHashes}
use keystone_crypto.Signing.{
  Secp256k1, Ed25519, Signer, Signature, sign, verify, der_to_rs, rs_to_der, ecdsa, schnorr,
  ed25519,
}
use keystone_crypto.Signing.StrictDer.{StrictDer, rs_to_der-StrictDer}
use keystone_crypto.Signing.Der.{der_to_rs-rs_to_der}
use keystone_crypto.Signing.Verify.{IsSecp256k1, IsEd25519, verify-sign}

-- What coincurve documents: a private key that it has accepted signs any digest of 32 bytes.
pub record SignsDigests (curve : Secp256k1) : Type 0 where
  pub signs :
      (raw sk digest : Bytes)
      → curve.private_key raw ≡ ok sk
      → length digest ≡ 32
      → (der : Bytes) × (curve.sign sk digest ≡ ok der)
  pub signs_schnorr :
      (raw sk digest aux : Bytes)
      → curve.private_key raw ≡ ok sk
      → length digest ≡ 32
      → (sig : Bytes) × (curve.sign_schnorr sk digest aux ≡ ok sig)

-- The signer's key object was made from the bytes of a private key.
abbrev pub HasKey : Secp256k1 → Ed25519 → Signer → Type 0
HasKey curve ed (Signer.secp256k_signer sk) = (raw : Bytes) × (curve.private_key raw ≡ ok sk)
HasKey curve ed (Signer.secp256k_schnorr_signer sk) =
    (raw : Bytes) × (curve.private_key raw ≡ ok sk)
HasKey curve ed (Signer.ed25519_signer sk) = (raw : Bytes) × (ed.private_key raw ≡ ok sk)

module _ (h : Hashes) (curve : Secp256k1) (ed : Ed25519) where
  -- Strict DER is split into its two numbers.
  der_to_rs_strict :
      (der : Bytes) (strict : StrictDer der) → der_to_rs der ≡ ok (strict.r, strict.s)
  der_to_rs_strict der strict =
      let written : rs_to_der strict.r strict.s ≡ ok der = rs_to_der-StrictDer der strict in
      let (der', written', back, _) =
        der_to_rs-rs_to_der strict.r strict.s strict.length-r strict.length-s in
      ap der_to_rs (ok-injective (sym written ∙ written')) ∙ back

  some_signature :
      IsHashes h
      → IsSecp256k1 curve
      → SignsDigests curve
      → (signer : Signer) (message aux : Bytes) → HasKey curve ed signer
      → (sig : Signature) × (sign h curve ed signer message aux ≡ ok sig)
  unfolding sign
  some_signature laws is_curve signs (Signer.secp256k_signer sk) message aux (raw, made) =
      let (der, signed) = signs.signs raw sk (h.sha256 message) made (laws.length-sha256 message) in
      let strict : StrictDer der = is_curve.strict_der sk (h.sha256 message) der signed in
      (
        record { scheme = ecdsa; raw = strict.r ++ strict.s; public_key = curve.public_key sk },
        rw (signed, der_to_rs_strict der strict) refl,
      )
  some_signature laws is_curve signs (Signer.secp256k_schnorr_signer sk) message aux (raw, made) =
      let (sig, signed) =
        signs.signs_schnorr raw sk (h.sha256 message) aux made (laws.length-sha256 message) in
      (
        record { scheme = schnorr; raw = sig; public_key = drop 1 (curve.public_key sk) },
        rw signed refl,
      )
  some_signature laws is_curve signs (Signer.ed25519_signer sk) message aux has =
      (record { scheme = ed25519; raw = ed.sign sk message; public_key = ed.public_key sk }, refl)

  -- A signer whose key the libraries accepted signs every message, for each of the three schemes, and
  -- `verify` accepts the signature under the signer's own public key, if the libraries do what they
  -- document.
  pub sign_returns :
      IsHashes h
      → IsSecp256k1 curve
      → SignsDigests curve
      → IsEd25519 ed
      → (signer : Signer) (message aux : Bytes) → HasKey curve ed signer
      → (sig : Signature) × (sign h curve ed signer message aux ≡ ok sig)
        × (verify h curve ed sig message none ≡ ok true)
  sign_returns laws is_curve signs is_ed signer message aux has =
      let (sig, signed) = some_signature laws is_curve signs signer message aux has in
      (sig, signed, verify-sign h curve ed is_curve is_ed signer message aux sig signed)
