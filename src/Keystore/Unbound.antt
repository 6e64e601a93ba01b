-- ===== src/Keystore/Unbound.antt =====
-- Schnorr signatures of `Wallet.sign_message` (src/keystonecrypto/keystore.py) and `Signature.verify`.
use keystone_crypto.Prelude.{◌≡◌, true, Option}
use keystone_crypto.Errors.{ok}
use keystone_crypto.Bytes.{Bytes}
use keystone_crypto.Derivation.{DerivationPath}
use keystone_crypto.Signing.{Signature, schnorr, verify}
use keystone_crypto.Signing.Verify.{IsSecp256k1, schnorr_unbound}
use keystone_crypto.Keystore.{Libraries, Wallet, sign_message}
use keystone_crypto.Keystore.Sign.{sign_message_sound}

-- Each Schnorr signature that a wallet makes verifies for every message and under every public key, not
-- only for the message that was signed and under the account's key. The curve library does what it
-- documents.
pub verify-sign_message_unbound :
    (lib : Libraries)
    → IsSecp256k1 lib.curve
    → (w : Wallet) (path : DerivationPath) (message aux : Bytes) (sig : Signature)
    → sign_message lib w path message schnorr aux ≡ ok sig
    → (other_message : Bytes) (other_key : Option Bytes)
    → verify lib.hashes lib.curve lib.ed sig other_message other_key ≡ ok true
verify-sign_message_unbound lib is_curve w path message aux sig e =
    let (account, _, _, _, signed, named, _) =
      sign_message_sound lib w path message schnorr aux sig e in
    schnorr_unbound lib.hashes lib.curve lib.ed is_curve account.signer message aux sig signed named
