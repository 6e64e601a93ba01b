-- ===== src/Keystore/Session/Vault.antt =====
-- The promise of a `Wallet` (src/keystonecrypto/keystore.py): a vault that holds a seed until it is shut.
use keystone_crypto.Prelude.{
  length, ◌==◌, not, ◌≡◌, refl, sym, ap, List, [], ◌∷◌, Bool, true, false, Option, none, some,
  get_elem?, Bool-cases, inl, inr, if◌then◌else◌,
}
use keystone_crypto.Errors.{Error, Result, ok, err, ◌>>=◌, >>=-pointwise}
use keystone_crypto.Bytes.{Bytes, equal}
use keystone_crypto.Text.{Str}
use keystone_crypto.SecretBytes.{SecretBytes}
use keystone_crypto.Mnemonic.{Mnemonic}
use keystone_crypto.Derivation.{DerivationPath, derive_from_seed}
use keystone_crypto.Signing.{
  Signature, Signer, ecdsa, schnorr, ed25519, key_bytes, new_secp256k_signer, new_schnorr_signer,
  new_ed25519_signer, sign, public_key_bytes,
}
use keystone_crypto.Keystore.{
  Libraries, Account, Wallet, mnemonic_of, is_closed, close, enter, exit, derive_account,
  sign_message, sign_raw, signer_for,
}
use keystone_crypto.Keystore.Session.{Call, Answer, Session, keep, sign_with, act, run}

-- The seed is there or gone: the vault has no buffer that is overwritten and no flag.
pub record Vault : Type 0 where
  pub key : Option SecretBytes
  pub phrase : Option Mnemonic
  pub accounts : List Account

abbrev is_shut : Option SecretBytes → Bool
is_shut none = true
is_shut (some seed) = false

abbrev shut : Vault → Vault
shut v = record v { key = none }

module _ (lib : Libraries) where
  open lib use {hashes, curve, ed}

  -- The schemes: the library that takes the key, and the signer that holds it.
  abbrev schemes : List (Str × (Bytes → Result Bytes) × (Bytes → Signer))
  schemes =
      (ecdsa, curve.private_key, Signer.secp256k_signer)
      ∷ (schnorr, curve.private_key, Signer.secp256k_schnorr_signer)
      ∷ (ed25519, ed.private_key, Signer.ed25519_signer)
      ∷ []

  -- The signer of a key of 32 bytes in the scheme of the given name.
  signer_in : List (Str × (Bytes → Result Bytes) × (Bytes → Signer)) → Bytes → Str → Result Signer
  signer_in [] key scheme = err Error.value_error
  signer_in ((name, take_key, signer) ∷ rest) key scheme =
      let others = signer_in rest key scheme in
      if not (equal scheme name)
      then others
      else if length key == 32
      then (do sk ← take_key key; ok (signer sk))
      else err Error.value_error

  -- The account of a seed.
  account_at : SecretBytes → DerivationPath → Str → Result Account
  account_at seed path scheme = do
    xprv ← derive_from_seed hashes curve seed path
    signer ← signer_in schemes xprv.secret_key.buf scheme
    ok (record {
      path = path;
      signer = signer;
      public_key = public_key_bytes hashes curve ed signer;
    })

  vault_account : Option SecretBytes → DerivationPath → Str → Result Account
  unfolding account_at
  vault_account none path scheme = err Error.runtime_error
  vault_account (some seed) path scheme = account_at seed path scheme

  account_answer : Option Account → Bytes → Bytes → Answer
  account_answer none message aux = Answer.nothing
  account_answer (some a) message aux =
      Answer.raw (do s ← sign hashes curve ed a.signer message aux; ok s.raw)

  unfoldable pub answer_of : Vault → Call → Vault × Answer
  unfolding vault_account account_answer signer_in
  answer_of v Call.get_mnemonic = (v, Answer.phrase v.phrase)
  answer_of v Call.get_closed = (v, Answer.flag (is_shut v.key))
  answer_of v Call.enter_with = (v, Answer.nothing)
  answer_of v Call.exit_with = (shut v, Answer.nothing)
  answer_of v Call.close_wallet = (shut v, Answer.nothing)
  answer_of v (Call.derive path scheme) =
      let r = vault_account v.key path scheme in
      (record v { accounts = keep r v.accounts }, Answer.account r)
  answer_of v (Call.sign path message scheme aux) = (
    v,
    Answer.signature (do
      account ← vault_account v.key path scheme
      sign hashes curve ed account.signer message aux),
  )
  answer_of v (Call.account_sign k message aux) =
      (v, account_answer (get_elem? v.accounts k) message aux)

  unfoldable pub answers_of : Vault → List Call → Vault × List Answer
  answers_of v [] = (v, [])
  answers_of v (c ∷ cs) =
      let (t, answer) = answer_of v c in let (u, answers) = answers_of t cs in (u, answer ∷ answers)

abbrev key_of : Bool → SecretBytes → Option SecretBytes
key_of closed seed = if closed then none else some seed

-- The vault that a session stands for.
unfoldable pub vault_of : Session → Vault
vault_of s = record {
  key = key_of s.wallet.closed s.wallet.seed;
  phrase = s.wallet.mnemonic;
  accounts = s.accounts;
}

is_shut-key_of : (closed : Bool) (seed : SecretBytes) → is_shut (key_of closed seed) ≡ closed
is_shut-key_of true seed = refl
is_shut-key_of false seed = refl

module _ (lib : Libraries) where
  open lib use {hashes, curve, ed}

  named_lem :
      (key : SecretBytes) (take_key : Bytes → Result Bytes) (signer : Bytes → Signer)
      → (key_bytes key >>= λ raw. take_key raw >>= λ sk. ok (signer sk)) ≡ (
          if length key.buf == 32
          then (do sk ← take_key key.buf; ok (signer sk))
          else err Error.value_error)
  unfolding key_bytes
  named_lem key take_key signer = elim (Bool-cases (length key.buf == 32)) [
    | inl fits ↦ rw fits refl
    | inr other ↦ rw other refl
  ]

  signer_lem :
      (key : SecretBytes) (scheme : Str)
      → signer_for lib key scheme ≡ signer_in lib (schemes lib) key.buf scheme
  unfolding signer_for signer_in new_secp256k_signer new_schnorr_signer new_ed25519_signer
  signer_lem key scheme = elim (Bool-cases (equal scheme ecdsa)) [
    | inl is_ecdsa ↦ rw is_ecdsa (named_lem key curve.private_key Signer.secp256k_signer)
    | inr no_ecdsa ↦ elim (Bool-cases (equal scheme schnorr)) [
      | inl is_schnorr ↦
          rw (no_ecdsa, is_schnorr) (named_lem key curve.private_key Signer.secp256k_schnorr_signer)
      | inr no_schnorr ↦ elim (Bool-cases (equal scheme ed25519)) [
        | inl is_ed ↦
            rw (no_ecdsa, no_schnorr, is_ed) (named_lem key ed.private_key Signer.ed25519_signer)
        | inr no_ed ↦ rw (no_ecdsa, no_schnorr, no_ed) refl
      ]
    ]
  ]

  account_lem :
      (seed : SecretBytes) (path : DerivationPath) (scheme : Str)
      → (derive_from_seed hashes curve seed path >>= λ xprv.
          signer_for lib xprv.secret_key scheme >>= λ signer. ok (record {
            path = path;
            signer = signer;
            public_key = public_key_bytes hashes curve ed signer;
          }))
        ≡ account_at lib seed path scheme
  unfolding account_at
  account_lem seed path scheme =
      >>=-pointwise (derive_from_seed hashes curve seed path)
        λ xprv. rw (signer_lem xprv.secret_key scheme) refl

  answer_lem :
      (a : Option Account) (message aux : Bytes)
      → sign_with lib a message aux ≡ account_answer lib a message aux
  unfolding sign_with account_answer sign_raw
  answer_lem none message aux = refl
  answer_lem (some a) message aux = refl

  derived_lem :
      (w : Wallet) (path : DerivationPath) (scheme : Str)
      → derive_account lib w path scheme ≡ vault_account lib (key_of w.closed w.seed) path scheme
  unfolding derive_account vault_account
  derived_lem w path scheme = elim (Bool-cases w.closed) [
    | inl shut ↦ rw shut refl
    | inr opened ↦ rw opened (account_lem w.seed path scheme)
  ]

  signed_lem :
      (w : Wallet) (path : DerivationPath) (message : Bytes) (scheme : Str) (aux : Bytes)
      → sign_message lib w path message scheme aux ≡ (
          vault_account lib (key_of w.closed w.seed) path scheme >>= λ account.
          sign hashes curve ed account.signer message aux)
  unfolding sign_message vault_account
  signed_lem w path message scheme aux = elim (Bool-cases w.closed) [
    | inl shut ↦ rw shut refl
    | inr opened ↦ rw (derived_lem w path scheme, opened) refl
  ]

  act-answer_of :
      (s : Session) (c : Call)
      → (vault_of (act lib s c).0, (act lib s c).1) ≡ answer_of lib (vault_of s) c
  unfolding act answer_of vault_of mnemonic_of is_closed close enter exit
  act-answer_of s Call.get_mnemonic = refl
  act-answer_of s Call.get_closed =
      ap (λ (b : Bool). (vault_of s, Answer.flag b))
        (sym (is_shut-key_of s.wallet.closed s.wallet.seed))
  act-answer_of s Call.enter_with = refl
  act-answer_of s Call.exit_with = refl
  act-answer_of s Call.close_wallet = refl
  act-answer_of s (Call.derive path scheme) =
      ap
        (λ (r : Result Account).
          (record (vault_of s) { accounts = keep r s.accounts }, Answer.account r))
        (derived_lem s.wallet path scheme)
  act-answer_of s (Call.sign path message scheme aux) =
      ap (λ (r : Result Signature). (vault_of s, Answer.signature r))
        (signed_lem s.wallet path message scheme aux)
  act-answer_of s (Call.account_sign k message aux) =
      ap (λ (answer : Answer). (vault_of s, answer))
        (answer_lem (get_elem? s.accounts k) message aux)

  -- The answers of a wallet to any sequence of calls, exceptions included, and the accounts that it
  -- hands out, are those of the vault that it stands for: one that holds a seed until it is shut, and
  -- has no buffer to overwrite.
  pub run-answers_of :
      (s : Session) (cs : List Call)
      → (vault_of (run lib s cs).0, (run lib s cs).1) ≡ answers_of lib (vault_of s) cs
  unfolding run answers_of
  run-answers_of s [] = refl
  run-answers_of s (c ∷ cs) = rw (← act-answer_of s c) (
      ap (λ (p : Vault × List Answer). (p.0, (act lib s c).1 ∷ p.1))
        (run-answers_of (act lib s c).0 cs))
