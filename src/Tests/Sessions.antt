-- ===== src/Tests/Sessions.antt =====
-- Runs of a client's calls on a wallet.
use keystone_crypto.Prelude.{◌≡◌, refl, List, [], ◌∷◌, ◌++◌, true, replicate, All, some}
use keystone_crypto.Errors.{ok}
use keystone_crypto.Digits.{digits, value}
use keystone_crypto.Bytes.{pos, equal, pack_u32, to_bytes}
use keystone_crypto.Text.{codes}
use keystone_crypto.SecretBytes.{new}
use keystone_crypto.Derivation.{
  DerivationPath, derive_from_seed, master, derive_path, derive, derive_index, effective_index,
  child_data, fingerprint,
}
use keystone_crypto.Signing.{ed25519, new_ed25519_signer, key_bytes, public_key_bytes, sign}
use keystone_crypto.Keystore.{Wallet, new_wallet, close, derive_account, signer_for, sign_raw}
use keystone_crypto.Keystore.Session.{Call, Answer, start, act, sign_with, run, with_wallet}
use keystone_crypto.Keystore.Session.Vault.{vault_of, answers_of, run-answers_of}
use keystone_crypto.Keystore.Session.Reach.{
  Reach, IsDerived, IsSound, until_raised, Reach-IsSound, with_wallet_closes,
}
use keystone_crypto.Keystore.Session.Genuine.{AreGenuine, run-AreGenuine}
use keystone_crypto.Tests.Libraries.{toy_libraries, toy_curve-IsSecp256k1, toy_ed-IsEd25519}
use keystone_crypto.Tests.Phrase.{phrase_16}
use keystone_crypto.Tests.Setting.{noise, entropy_16, signing_key}

abbrev wallet : Wallet
wallet = new_wallet (some phrase_16) (record { buf = entropy_16 })

abbrev path : DerivationPath
path = record { indices = (pos 44, true) ∷ [] }

-- An account is derived, the wallet closed, and the account signs.
abbrev calls : List Call
calls =
    Call.derive path ed25519
    ∷ Call.close_wallet
    ∷ Call.account_sign 0 (codes "hi") noise
    ∷ Call.sign path (codes "hi") ed25519 noise
    ∷ []

run-answers_of_example :
    (
      vault_of (run toy_libraries (start wallet) calls).0,
      (run toy_libraries (start wallet) calls).1,
    )
    ≡ answers_of toy_libraries (vault_of (start wallet)) calls
run-answers_of_example = run-answers_of toy_libraries (start wallet) calls

Reach-IsSound_example :
    IsSound toy_libraries wallet
      (act toy_libraries
        (act toy_libraries (start wallet) (Call.derive path ed25519)).0
        Call.close_wallet).0
Reach-IsSound_example =
    Reach-IsSound toy_libraries wallet
      (act toy_libraries (act toy_libraries (start wallet) (Call.derive path ed25519)).0
        Call.close_wallet).0
      refl (Reach.next (Reach.next Reach.here (Call.derive path ed25519)) Call.close_wallet)

with_wallet_closes_example :
    ((with_wallet toy_libraries (start wallet) calls).0.wallet.closed ≡ true)
    × ((with_wallet toy_libraries (start wallet) calls).0.wallet.seed.buf ≡ replicate 16 0)
    × All
        (IsDerived toy_libraries wallet)
        (with_wallet toy_libraries (start wallet) calls).0.accounts
    × ((with_wallet toy_libraries (start wallet) calls).1
        ≡ until_raised (run toy_libraries (start wallet) calls).1)
with_wallet_closes_example = with_wallet_closes toy_libraries wallet calls refl

run-AreGenuine_example :
    AreGenuine toy_libraries wallet calls (run toy_libraries (start wallet) calls).1
run-AreGenuine_example =
    run-AreGenuine toy_libraries toy_curve-IsSecp256k1 toy_ed-IsEd25519 wallet calls refl

-- The account's signature after the wallet was closed.
account_outlives :
    (run toy_libraries (start wallet) (
      Call.derive path ed25519 ∷ Call.close_wallet ∷ Call.account_sign 0 (codes "hi") noise ∷ [])).1
    ≡ Answer.account (derive_account toy_libraries wallet path ed25519)
      ∷ Answer.nothing
      ∷ Answer.raw (ok (signing_key ++ codes "hi"))
      ∷ []
unfolding run act close sign_with sign_raw derive_account derive_from_seed master derive_path derive
    derive_index effective_index child_data fingerprint pack_u32 to_bytes digits value new
    signer_for equal new_ed25519_signer key_bytes public_key_bytes sign
account_outlives = refl
