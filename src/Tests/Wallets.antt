-- ===== src/Tests/Wallets.antt =====
-- Runs of the wallet, from unlocking to closing.
use keystone_crypto.Prelude.{
  ◌≡◌, refl, ap, [], ◌∷◌, ◌++◌, true, false, replicate, none, some, arith,
}
use keystone_crypto.Errors.{ok}
use keystone_crypto.Digits.{digits, value}
use keystone_crypto.Bytes.{pos, equal, pack_u32, to_bytes}
use keystone_crypto.Text.{codes}
use keystone_crypto.SecretBytes.{SecretBytes, zeroize, new}
use keystone_crypto.Mnemonic.{Mnemonic, entropy}
use keystone_crypto.Derivation.{
  DerivationPath, derive_from_seed, master, derive_path, derive, derive_index, effective_index,
  child_data, fingerprint,
}
use keystone_crypto.Signing.{
  Signature, sign, ed25519, new_ed25519_signer, key_bytes, public_key_bytes,
}
use keystone_crypto.Keystore.{
  Account, Keystore, KeystoreContext, Wallet, Argument, Holding, close, create, save, open_keystore,
  unlock, new_wallet, derive_account, sign_message, signer_for,
}
use keystone_crypto.Keystore.RoundTrip.{unlock-create}
use keystone_crypto.Keystore.Closed.{close_keeps_entropy}
use keystone_crypto.Keystore.Signs.{sign_message_returns}
use keystone_crypto.Signing.{Signer, ecdsa, verify, new_secp256k_signer}
use keystone_crypto.Keystore.Unbound.{verify-sign_message_unbound}
use keystone_crypto.Signing.{schnorr, new_schnorr_signer}
use keystone_crypto.Tests.Libraries.{
  toy_curve-IsSecp256k1, toy_curve-SignsDigests, toy_ed-IsEd25519,
}
use keystone_crypto.Prelude.{none}
use keystone_crypto.Tests.Libraries.{
  toy_aes-IsAesGcm, toy_hashes, toy_curve, toy_ed, toy_hashes-IsHashes, toy_unicode,
  toy_unicode-IsUnicode, toy_libraries,
}
use keystone_crypto.Tests.Phrase.{phrase_16, from_entropy-phrase_16}
use keystone_crypto.Tests.Setting.{
  noise, entropy_16, entropy_16-AreBytes, params_with, params-FitsHeader, sevens, nines, now,
  now-IsI64, password, pw, password-encoded, password-ne-nil, key_for, signing_key,
}

abbrev seed : SecretBytes
seed = record { buf = entropy_16 }

abbrev wallet : Wallet
wallet = new_wallet (some phrase_16) seed

abbrev account_path : DerivationPath
account_path = record { indices = (pos 44, true) ∷ (pos 0, false) ∷ [] }

stored :
    (ks : Keystore) × (create toy_libraries sevens nines now phrase_16
        (Argument.text password)
        (params_with 16)
        true
      ≡ (ok ks, some (zeroize pw)))
    × (open_keystore (codes "w.kst") (save ks (codes "w.kst") (λ p. none))
        ≡ ok (record { blob = ks.blob }))
    × (unlock toy_libraries (record { blob = ks.blob }) (Argument.text password)
        ≡ (ok wallet, some (zeroize pw)))
stored =
    unlock-create toy_libraries toy_hashes-IsHashes toy_unicode-IsUnicode toy_aes-IsAesGcm
      entropy_16 4 refl (omega arith) (omega arith) entropy_16-AreBytes phrase_16
      from_entropy-phrase_16 sevens nines now (params_with 16) true password password (key_for 16)
      refl refl refl refl (params-FitsHeader 16) now-IsI64 password-ne-nil password-encoded refl
      refl (codes "w.kst") (λ p. none)

abbrev context : KeystoreContext
context = record { blob = stored.0.blob }

close_keeps_entropy_example :
    (m : Mnemonic) × ((close wallet).mnemonic ≡ some m)
    × (entropy toy_unicode m ≡ ok seed)
    × ((close wallet).seed.buf ≡ replicate 16 0)
close_keeps_entropy_example =
    close_keeps_entropy toy_libraries toy_hashes-IsHashes toy_unicode-IsUnicode context password
      wallet 4 (ap (λ (h : Holding Wallet). h.0) stored.3) refl (omega arith) (omega arith)
      entropy_16-AreBytes

abbrev signature : Signature
signature = record { scheme = ed25519; raw = signing_key ++ codes "hi"; public_key = signing_key }

abbrev hardened_path : DerivationPath
hardened_path = record { indices = (pos 44, true) ∷ [] }

signed : sign_message toy_libraries wallet hardened_path (codes "hi") ed25519 noise ≡ ok signature
unfolding sign_message derive_account derive_from_seed master derive_path derive derive_index
    effective_index child_data fingerprint pack_u32 to_bytes digits value new signer_for equal
    new_ed25519_signer key_bytes public_key_bytes sign
signed = refl

abbrev ecdsa_account : Account
ecdsa_account = record {
  path = hardened_path;
  signer = Signer.secp256k_signer signing_key;
  public_key = 2 ∷ signing_key;
}

derived : derive_account toy_libraries wallet hardened_path ecdsa ≡ ok ecdsa_account
unfolding derive_account derive_from_seed master derive_path derive derive_index effective_index
    child_data fingerprint pack_u32 to_bytes digits value new signer_for equal new_secp256k_signer
    key_bytes public_key_bytes
derived = refl

sign_message_returns_example :
    (sig : Signature) × (sign_message toy_libraries wallet hardened_path (codes "hi") ecdsa noise
      ≡ ok sig)
    × (sig.scheme ≡ ecdsa)
    × (sig.public_key ≡ 2 ∷ signing_key)
    × (verify toy_hashes toy_curve toy_ed sig (codes "hi") none ≡ ok true)
sign_message_returns_example =
    sign_message_returns toy_libraries toy_hashes-IsHashes toy_curve-IsSecp256k1
      toy_curve-SignsDigests toy_ed-IsEd25519 wallet hardened_path (codes "hi") ecdsa noise
      ecdsa_account derived

abbrev schnorr_signature : Signature
schnorr_signature = record { scheme = schnorr; raw = 1 ∷ replicate 63 0; public_key = signing_key }

schnorr_signed :
    sign_message toy_libraries wallet hardened_path (codes "hi") schnorr noise
    ≡ ok schnorr_signature
unfolding sign_message derive_account derive_from_seed master derive_path derive derive_index
    effective_index child_data fingerprint pack_u32 to_bytes digits value new signer_for equal
    new_schnorr_signer key_bytes public_key_bytes sign
schnorr_signed = refl

verify-sign_message_unbound_example :
    verify toy_hashes toy_curve toy_ed schnorr_signature (codes "bye") (some (2 ∷ [])) ≡ ok true
verify-sign_message_unbound_example =
    verify-sign_message_unbound toy_libraries toy_curve-IsSecp256k1 wallet hardened_path
      (codes "hi") noise schnorr_signature schnorr_signed (codes "bye") (some (2 ∷ []))
