-- ===== src/Keystore/Session/Genuine.antt =====
-- The signatures that a client gets from an unlocked `Wallet` (src/keystonecrypto/keystore.py).
use keystone_crypto.Prelude.{
  ℕ, ◌≡◌, refl, sym, ap, ◌∙◌, List, [], ◌∷◌, true, false, none, get_elem?, All, All-get_elem?,
  Option-cases, inl, inr,
}
use keystone_crypto.Derivation.{DerivationPath}
use keystone_crypto.Errors.{Result, ok, err, ok-injective, >>=-eq-ok}
use keystone_crypto.Bytes.{Bytes}
use keystone_crypto.Text.{Str}
use keystone_crypto.Signing.{Signature, sign, serialize, scheme_of, verify, public_key_bytes}
use keystone_crypto.Signing.Verify.{IsSecp256k1, IsEd25519, verify-sign}
use keystone_crypto.Keystore.{Libraries, Account, Wallet, sign_message, sign_raw}
use keystone_crypto.Keystore.Sign.{account_of, sign_names, sign_message_sound, verify-sign_message}
use keystone_crypto.Keystore.Session.{Call, Answer, Session, start, sign_with, act, run}
use keystone_crypto.Keystore.Session.Reach.{IsDerived, IsSound, act-IsSound, start-IsSound}

module _ (lib : Libraries) where
  open lib use {hashes, curve, ed}

  -- What an account signs, as a signature that can be verified.
  abbrev pub signature_of : Account → Bytes → Signature
  signature_of a raw = record { scheme = scheme_of a.signer; raw = raw; public_key = a.public_key }

  -- An answer with a signature: it has the scheme that was asked for, or comes from an account of the
  -- wallet, and it verifies.
  abbrev pub IsGenuine : Wallet → Call → Answer → Type 0
  IsGenuine w (Call.sign path message scheme aux) (Answer.signature (ok sig)) =
      (sig.scheme ≡ scheme) × (verify hashes curve ed sig message none ≡ ok true)
  IsGenuine w (Call.account_sign k message aux) (Answer.raw (ok raw)) =
      (a : Account) × IsDerived lib w a
      × (verify hashes curve ed (signature_of a raw) message none ≡ ok true)
  IsGenuine w _ _ = Unit

  abbrev pub AreGenuine : Wallet → List Call → List Answer → Type 0
  AreGenuine w [] [] = Unit
  AreGenuine w (c ∷ cs) (answer ∷ answers) = IsGenuine w c answer × AreGenuine w cs answers
  AreGenuine w _ _ = ⊥

  signature_of_lem :
      (a : Account) (message aux raw : Bytes) (sig : Signature)
      → public_key_bytes hashes curve ed a.signer ≡ a.public_key
      → sign hashes curve ed a.signer message aux ≡ ok sig
      → serialize sig ≡ raw
      → sig ≡ signature_of a raw
  signature_of_lem a message aux raw sig own signed same =
      let (scheme_named, key_named) = sign_names hashes curve ed a.signer message aux sig signed in
      fields sig.scheme (scheme_of a.signer) sig.raw raw sig.public_key a.public_key scheme_named
        same (key_named ∙ own)
    where
      fields :
          (s s' : Str) (r r' p p' : Bytes)
          → s ≡ s'
          → r ≡ r'
          → p ≡ p'
          → ◌≡◌ {A = Signature}
              (record { scheme = s; raw = r; public_key = p })
              (record { scheme = s'; raw = r'; public_key = p' })
      fields s s' r r' p p' es er ep = rw (es, er, ep) refl

  module _ (is_curve : IsSecp256k1 curve) (is_ed : IsEd25519 ed) (w : Wallet) where
    sign_raw-IsGenuine :
        (a : Account) (k : ℕ) (message aux : Bytes) (r : Result Bytes)
        → IsDerived lib w a
        → sign_raw lib a message aux ≡ r
        → IsGenuine w (Call.account_sign k message aux) (Answer.raw r)
    unfolding sign_raw
    sign_raw-IsGenuine a k message aux (err e) derived made = tt
    sign_raw-IsGenuine a k message aux (ok raw) derived made =
        let (sig, signed, last) = >>=-eq-ok (sign hashes curve ed a.signer message aux) _ made in
        let (scheme, found) = derived in
        let (_, _, own) = account_of lib w a.path scheme a found in
        let same : sig ≡ signature_of a raw =
          signature_of_lem a message aux raw sig own signed (ok-injective last) in
        (
          a,
          derived,
          ap (λ (t : Signature). verify hashes curve ed t message none) (sym same)
              ∙ verify-sign hashes curve ed is_curve is_ed a.signer message aux sig signed,
        )

    sign_with-IsGenuine :
        (accounts : List Account) (k : ℕ) (message aux : Bytes)
        → All (IsDerived lib w) accounts
        → IsGenuine w
            (Call.account_sign k message aux)
            (sign_with lib (get_elem? accounts k) message aux)
    unfolding sign_with
    sign_with-IsGenuine accounts k message aux h = elim (Option-cases (get_elem? accounts k)) [
      | inl missing ↦ rw missing tt
      | inr (a, there) ↦ rw there (
          sign_raw-IsGenuine a k message aux (sign_raw lib a message aux)
            (All-get_elem? (IsDerived lib w) accounts k a h there) refl)
    ]

    sign_message-IsGenuine :
        (v : Wallet) (path : DerivationPath) (message : Bytes) (scheme : Str) (aux : Bytes)
        (r : Result Signature)
        → sign_message lib v path message scheme aux ≡ r
        → IsGenuine w (Call.sign path message scheme aux) (Answer.signature r)
    sign_message-IsGenuine v path message scheme aux (err e) made = tt
    sign_message-IsGenuine v path message scheme aux (ok sig) made =
        let (_, _, _, _, _, named, _) = sign_message_sound lib v path message scheme aux sig made in
        (named, verify-sign_message lib is_curve is_ed v path message scheme aux sig made)

    act-IsGenuine : (s : Session) (c : Call) → IsSound lib w s → IsGenuine w c (act lib s c).1
    unfolding act
    act-IsGenuine s Call.get_mnemonic h = tt
    act-IsGenuine s Call.get_closed h = tt
    act-IsGenuine s Call.enter_with h = tt
    act-IsGenuine s Call.exit_with h = tt
    act-IsGenuine s Call.close_wallet h = tt
    act-IsGenuine s (Call.derive path scheme) h = tt
    act-IsGenuine s (Call.sign path message scheme aux) h =
        sign_message-IsGenuine s.wallet path message scheme aux
          (sign_message lib s.wallet path message scheme aux) refl
    act-IsGenuine s (Call.account_sign k message aux) h =
        sign_with-IsGenuine s.accounts k message aux h.derived

    run_from-AreGenuine :
        (s : Session) (cs : List Call)
        → w.closed ≡ false
        → IsSound lib w s
        → AreGenuine w cs (run lib s cs).1
    unfolding run
    run_from-AreGenuine s [] open' h = tt
    run_from-AreGenuine s (c ∷ cs) open' h = (
      act-IsGenuine s c h,
      run_from-AreGenuine (act lib s c).0 cs open' (act-IsSound lib w s c open' h),
    )

    -- Every signature that a client gets in any sequence of calls on an unlocked wallet verifies: that of
    -- the wallet has the scheme that was asked for and verifies under the key that it names, and that of
    -- an account, also after the wallet was closed, verifies under the key of an account that the wallet
    -- derived. The curve libraries do what they document.
    pub run-AreGenuine :
        (cs : List Call) → w.closed ≡ false → AreGenuine w cs (run lib (start w) cs).1
    run-AreGenuine cs open' = run_from-AreGenuine (start w) cs open' (start-IsSound lib w open')
