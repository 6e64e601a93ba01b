-- ===== src/Keystore/Sign.antt =====
-- `Wallet.sign_message` (src/keystonecrypto/keystore.py).
use keystone_crypto.Prelude.{none, true, ◌≡◌, refl, sym, ◌∙◌, false, Bool-cases, inl, inr}
use keystone_crypto.Errors.{Error, ok, err, ok-injective, >>=-eq-ok, unless-eq-ok}
use keystone_crypto.Bytes.{Bytes, equal, equal→eq}
use keystone_crypto.Text.{Str}
use keystone_crypto.SecretBytes.{SecretBytes}
use keystone_crypto.Hashes.{Hashes}
use keystone_crypto.Derivation.{DerivationPath, derive_from_seed}
use keystone_crypto.Signing.{
  Secp256k1, Ed25519, Signer, Signature, sign, scheme_of, public_key_bytes, ecdsa, schnorr, ed25519,
  new_secp256k_signer, new_schnorr_signer, new_ed25519_signer, key_bytes, der_to_rs,
}
use keystone_crypto.Signing.{verify}
use keystone_crypto.Signing.Verify.{IsSecp256k1, IsEd25519, verify-sign}
use keystone_crypto.Keystore.{Libraries, Account, Wallet, derive_account, sign_message, signer_for}

module _ (h : Hashes) (curve : Secp256k1) (ed : Ed25519) where
  -- A signature names its signer's scheme and public key.
  pub sign_names :
      (signer : Signer) (message aux : Bytes) (sig : Signature)
      → sign h curve ed signer message aux ≡ ok sig
      → (sig.scheme ≡ scheme_of signer) × (sig.public_key ≡ public_key_bytes h curve ed signer)
  unfolding sign scheme_of public_key_bytes
  sign_names (Signer.secp256k_signer sk) message aux sig e =
      let (der, _, after) = >>=-eq-ok (curve.sign sk (h.sha256 message)) _ e in
      let (rs, _, last) = >>=-eq-ok (der_to_rs der) _ after in rw (← ok-injective last) (refl, refl)
  sign_names (Signer.secp256k_schnorr_signer sk) message aux sig e =
      let (raw, _, last) = >>=-eq-ok (curve.sign_schnorr sk (h.sha256 message) aux) _ e in
      rw (← ok-injective last) (refl, refl)
  sign_names (Signer.ed25519_signer sk) message aux sig e = rw (← ok-injective e) (refl, refl)

  -- Each constructor makes its own kind of signer.
  new_secp256k_signer-scheme :
      (sk : SecretBytes) (signer : Signer)
      → new_secp256k_signer h curve ed sk ≡ ok signer
      → scheme_of signer ≡ ecdsa
  unfolding new_secp256k_signer
  new_secp256k_signer-scheme sk signer e =
      let (raw, _, after) = >>=-eq-ok (key_bytes sk) _ e in
      let (key, _, last) = >>=-eq-ok (curve.private_key raw) _ after in
      rw (← ok-injective last) (unfold scheme_of in refl)

  new_schnorr_signer-scheme :
      (sk : SecretBytes) (signer : Signer)
      → new_schnorr_signer h curve ed sk ≡ ok signer
      → scheme_of signer ≡ schnorr
  unfolding new_schnorr_signer
  new_schnorr_signer-scheme sk signer e =
      let (raw, _, after) = >>=-eq-ok (key_bytes sk) _ e in
      let (key, _, last) = >>=-eq-ok (curve.private_key raw) _ after in
      rw (← ok-injective last) (unfold scheme_of in refl)

  new_ed25519_signer-scheme :
      (sk : SecretBytes) (signer : Signer)
      → new_ed25519_signer h curve ed sk ≡ ok signer
      → scheme_of signer ≡ ed25519
  unfolding new_ed25519_signer
  new_ed25519_signer-scheme sk signer e =
      let (raw, _, after) = >>=-eq-ok (key_bytes sk) _ e in
      let (key, _, last) = >>=-eq-ok (ed.private_key raw) _ after in
      rw (← ok-injective last) (unfold scheme_of in refl)

module _ (lib : Libraries) where
  open lib use {hashes, curve, ed}

  signer_for-scheme :
      (sk : SecretBytes) (scheme : Str) (signer : Signer)
      → signer_for lib sk scheme ≡ ok signer
      → scheme_of signer ≡ scheme
  unfolding signer_for
  signer_for-scheme sk scheme signer e = elim (Bool-cases (equal scheme ecdsa)) [
    | inl is_ecdsa ↦
        new_secp256k_signer-scheme hashes curve ed sk signer (rw is_ecdsa at e)
        ∙ sym (equal→eq scheme ecdsa is_ecdsa)
    | inr no_ecdsa ↦ elim (Bool-cases (equal scheme schnorr)) [
      | inl is_schnorr ↦
          new_schnorr_signer-scheme hashes curve ed sk signer (rw (no_ecdsa, is_schnorr) at e)
          ∙ sym (equal→eq scheme schnorr is_schnorr)
      | inr no_schnorr ↦ elim (Bool-cases (equal scheme ed25519)) [
        | inl is_ed ↦
            new_ed25519_signer-scheme hashes curve ed sk signer
              (rw (no_ecdsa, no_schnorr, is_ed) at e)
            ∙ sym (equal→eq scheme ed25519 is_ed)
        | inr no_ed ↦ absurd (unsupported (rw (no_ecdsa, no_schnorr, no_ed) at e))
      ]
    ]
  ]
    where
      unsupported : err Error.value_error ≡ ok signer → ⊥
      unsupported h = cc

  -- What `derive_account` returns.
  pub account_of :
      (w : Wallet) (path : DerivationPath) (scheme : Str) (account : Account)
      → derive_account lib w path scheme ≡ ok account
      → (account.path ≡ path)
        × (scheme_of account.signer ≡ scheme)
        × (public_key_bytes hashes curve ed account.signer ≡ account.public_key)
  unfolding derive_account
  account_of w path scheme account e =
      let (_, open') = unless-eq-ok w.closed _ Error.runtime_error e in
      let (xprv, _, after) = >>=-eq-ok (derive_from_seed hashes curve w.seed path) _ open' in
      let (signer, made, last) = >>=-eq-ok (signer_for lib xprv.secret_key scheme) _ after in
      rw (← ok-injective last) (refl, signer_for-scheme xprv.secret_key scheme signer made, refl)

  -- A signature by an open wallet is that of the account at the path: it carries the scheme that was
  -- asked for and the account's public key, and a closed wallet returns none.
  pub sign_message_sound :
      (w : Wallet) (path : DerivationPath) (message : Bytes) (scheme : Str) (aux : Bytes)
      (sig : Signature)
      → sign_message lib w path message scheme aux ≡ ok sig
      → (account : Account) × (w.closed ≡ false)
        × (derive_account lib w path scheme ≡ ok account)
        × (account.path ≡ path)
        × (sign hashes curve ed account.signer message aux ≡ ok sig)
        × (sig.scheme ≡ scheme)
        × (sig.public_key ≡ account.public_key)
  unfolding sign_message
  sign_message_sound w path message scheme aux sig e =
      let (is_open, rest) = unless-eq-ok w.closed _ Error.runtime_error e in
      let (account, found, signed) = >>=-eq-ok (derive_account lib w path scheme) _ rest in
      let (same_path, same_scheme, same_key) = account_of w path scheme account found in
      let (scheme_named, key_named) =
        sign_names hashes curve ed account.signer message aux sig signed in
      (account, is_open, found, same_path, signed, scheme_named ∙ same_scheme, key_named ∙ same_key)

  -- What an open wallet signs, the signature's own public key verifies, if the libraries do what they
  -- document.
  pub verify-sign_message :
      IsSecp256k1 curve
      → IsEd25519 ed
      → (w : Wallet) (path : DerivationPath) (message : Bytes) (scheme : Str) (aux : Bytes)
        (sig : Signature)
      → sign_message lib w path message scheme aux ≡ ok sig
      → verify hashes curve ed sig message none ≡ ok true
  verify-sign_message is_curve is_ed w path message scheme aux sig e =
      let (account, _, _, _, signed, _, _) = sign_message_sound w path message scheme aux sig e in
      verify-sign hashes curve ed is_curve is_ed account.signer message aux sig signed
