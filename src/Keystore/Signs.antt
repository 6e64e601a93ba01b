-- ===== src/Keystore/Signs.antt =====
-- An open `Wallet` signs (src/keystonecrypto/keystore.py).
use keystone_crypto.Prelude.{none, true, ◌≡◌, refl, ◌∙◌, false, Bool-cases, inl, inr}
use keystone_crypto.Errors.{Error, ok, err, ok-injective, >>=-eq-ok, unless-eq-ok}
use keystone_crypto.Bytes.{Bytes, equal}
use keystone_crypto.Text.{Str}
use keystone_crypto.SecretBytes.{SecretBytes}
use keystone_crypto.Hashes.{IsHashes}
use keystone_crypto.Derivation.{DerivationPath, derive_from_seed}
use keystone_crypto.Signing.{
  Signer, Signature, sign, verify, ecdsa, schnorr, ed25519, new_secp256k_signer, new_schnorr_signer,
  new_ed25519_signer, key_bytes,
}
use keystone_crypto.Signing.Verify.{IsSecp256k1, IsEd25519}
use keystone_crypto.Signing.Signs.{SignsDigests, HasKey, sign_returns}
use keystone_crypto.Keystore.{Libraries, Account, Wallet, derive_account, sign_message, signer_for}
use keystone_crypto.Keystore.Sign.{account_of, sign_names}

module _ (lib : Libraries) where
  open lib use {hashes, curve, ed}

  new_secp256k_signer-HasKey :
      (sk : SecretBytes) (signer : Signer)
      → new_secp256k_signer hashes curve ed sk ≡ ok signer
      → HasKey curve ed signer
  unfolding new_secp256k_signer
  new_secp256k_signer-HasKey sk signer e =
      let (raw, _, after) = >>=-eq-ok (key_bytes sk) _ e in
      let (key, made, last) = >>=-eq-ok (curve.private_key raw) _ after in
      rw (← ok-injective last) (raw, made)

  new_schnorr_signer-HasKey :
      (sk : SecretBytes) (signer : Signer)
      → new_schnorr_signer hashes curve ed sk ≡ ok signer
      → HasKey curve ed signer
  unfolding new_schnorr_signer
  new_schnorr_signer-HasKey sk signer e =
      let (raw, _, after) = >>=-eq-ok (key_bytes sk) _ e in
      let (key, made, last) = >>=-eq-ok (curve.private_key raw) _ after in
      rw (← ok-injective last) (raw, made)

  new_ed25519_signer-HasKey :
      (sk : SecretBytes) (signer : Signer)
      → new_ed25519_signer hashes curve ed sk ≡ ok signer
      → HasKey curve ed signer
  unfolding new_ed25519_signer
  new_ed25519_signer-HasKey sk signer e =
      let (raw, _, after) = >>=-eq-ok (key_bytes sk) _ e in
      let (key, made, last) = >>=-eq-ok (ed.private_key raw) _ after in
      rw (← ok-injective last) (raw, made)

  signer_for-HasKey :
      (sk : SecretBytes) (scheme : Str) (signer : Signer)
      → signer_for lib sk scheme ≡ ok signer
      → HasKey curve ed signer
  unfolding signer_for
  signer_for-HasKey sk scheme signer e = elim (Bool-cases (equal scheme ecdsa)) [
    | inl is_ecdsa ↦ new_secp256k_signer-HasKey sk signer (rw is_ecdsa at e)
    | inr no_ecdsa ↦ elim (Bool-cases (equal scheme schnorr)) [
      | inl is_schnorr ↦ new_schnorr_signer-HasKey sk signer (rw (no_ecdsa, is_schnorr) at e)
      | inr no_schnorr ↦ elim (Bool-cases (equal scheme ed25519)) [
        | inl is_ed ↦ new_ed25519_signer-HasKey sk signer (rw (no_ecdsa, no_schnorr, is_ed) at e)
        | inr no_ed ↦ absurd (unsupported (rw (no_ecdsa, no_schnorr, no_ed) at e))
      ]
    ]
  ]
    where
      unsupported : err Error.value_error ≡ ok signer → ⊥
      unsupported h = cc

  derived_key :
      (w : Wallet) (path : DerivationPath) (scheme : Str) (account : Account)
      → derive_account lib w path scheme ≡ ok account
      → (w.closed ≡ false) × HasKey curve ed account.signer
  unfolding derive_account
  derived_key w path scheme account e =
      let (is_open, open') = unless-eq-ok w.closed _ Error.runtime_error e in
      let (xprv, _, after) = >>=-eq-ok (derive_from_seed hashes curve w.seed path) _ open' in
      let (signer, made, last) = >>=-eq-ok (signer_for lib xprv.secret_key scheme) _ after in
      (is_open, rw (← ok-injective last) (signer_for-HasKey xprv.secret_key scheme signer made))

  message_signed :
      (w : Wallet) (path : DerivationPath) (message : Bytes) (scheme : Str) (aux : Bytes)
      (account : Account) (sig : Signature)
      → w.closed ≡ false
      → derive_account lib w path scheme ≡ ok account
      → sign hashes curve ed account.signer message aux ≡ ok sig
      → sign_message lib w path message scheme aux ≡ ok sig
  unfolding sign_message
  message_signed w path message scheme aux account sig is_open found signed =
      rw (found, is_open, signed) refl

  -- Where a wallet derives an account, it signs every message: the signature has the scheme that was
  -- asked for and the account's public key, and verifies under it, if the libraries do what they
  -- document.
  pub sign_message_returns :
      IsHashes hashes
      → IsSecp256k1 curve
      → SignsDigests curve
      → IsEd25519 ed
      → (w : Wallet) (path : DerivationPath) (message : Bytes) (scheme : Str) (aux : Bytes)
        (account : Account)
      → derive_account lib w path scheme ≡ ok account
      → (sig : Signature) × (sign_message lib w path message scheme aux ≡ ok sig)
        × (sig.scheme ≡ scheme)
        × (sig.public_key ≡ account.public_key)
        × (verify hashes curve ed sig message none ≡ ok true)
  sign_message_returns laws is_curve signs is_ed w path message scheme aux account found =
      let (is_open, has) = derived_key w path scheme account found in
      let (_, same_scheme, same_key) = account_of lib w path scheme account found in
      let (sig, signed, verified) =
        sign_returns hashes curve ed laws is_curve signs is_ed account.signer message aux has in
      let (scheme_named, key_named) =
        sign_names hashes curve ed account.signer message aux sig signed in
      (
        sig,
        message_signed w path message scheme aux account sig is_open found signed,
        scheme_named ∙ same_scheme,
        key_named ∙ same_key,
        verified,
      )
