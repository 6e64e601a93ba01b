-- ===== src/Keystore/Session/Reach.antt =====
-- The states that a client can bring an unlocked `Wallet` into (src/keystonecrypto/keystore.py).
use keystone_crypto.Prelude.{
  ℕ, ◌⊎◌, inl, inr, ◌≡◌, refl, sym, ap, ◌∙◌, List, [], ◌∷◌, true, false, length, replicate,
  length-replicate, All, Bool-cases, if◌then◌else◌,
}
use keystone_crypto.Errors.{Error, Result, ok, err, unless-eq-ok}
use keystone_crypto.Bytes.{Bytes}
use keystone_crypto.Text.{Str}
use keystone_crypto.SecretBytes.{SecretBytes}
use keystone_crypto.SecretBytes.Zeroize.{zeroize-replicate}
use keystone_crypto.Derivation.{DerivationPath}
use keystone_crypto.Keystore.{Libraries, Account, Wallet, close, enter, exit, derive_account}
use keystone_crypto.Keystore.Sign.{account_of}
use keystone_crypto.Keystore.Session.{
  Call, Answer, Session, start, keep, raised, act, run, body, with_wallet,
}

-- The wallet is open and has its seed, or it is closed and has zeros in the seed's place.
abbrev pub IsOpenOrWiped : Bytes → Wallet → Type 0
IsOpenOrWiped seed w =
    ((w.closed ≡ false) × (w.seed.buf ≡ seed))
    ⊎ ((w.closed ≡ true) × (w.seed.buf ≡ replicate (length seed) 0))

-- The answers up to the first exception, with it.
abbrev pub until_raised : List Answer → List Answer
until_raised [] = []
until_raised (a ∷ rest) = let more = until_raised rest in if raised a then a ∷ [] else a ∷ more

close-IsOpenOrWiped :
    (seed : Bytes) (w : Wallet)
    → IsOpenOrWiped seed w
    → ((close w).closed ≡ true) × ((close w).seed.buf ≡ replicate (length seed) 0)
unfolding close
close-IsOpenOrWiped seed w h =
    (refl, ap (λ (s : SecretBytes). s.buf) (zeroize-replicate w.seed) ∙ ap zeros (same_length h))
  where
    zeros : ℕ → Bytes
    zeros n = replicate n 0

    same_length : IsOpenOrWiped seed w → length w.seed.buf ≡ length seed
    same_length (inl (_, e)) = ap length e
    same_length (inr (_, e)) = ap length e ∙ length-replicate (length seed) 0

module _ (lib : Libraries) where
  -- `Reach s t`: some calls lead from `s` to `t`.
  pub data Reach (s : Session) : Session → Type 0 where
    here : Reach s s
    next : {t : Session} → Reach s t → (c : Call) → Reach s (act lib t c).0

  -- The account comes from the wallet `w`.
  abbrev pub IsDerived : Wallet → Account → Type 0
  IsDerived w a = (scheme : Str) × (derive_account lib w a.path scheme ≡ ok a)

  pub record IsSound (w : Wallet) (s : Session) : Type 0 where
    pub seed : IsOpenOrWiped w.seed.buf s.wallet
    pub phrase : s.wallet.mnemonic ≡ w.mnemonic
    pub derived : All (IsDerived w) s.accounts

  derive_account-open :
      (v w : Wallet) (path : DerivationPath) (scheme : Str)
      → v.closed ≡ false
      → w.closed ≡ false
      → v.seed.buf ≡ w.seed.buf
      → derive_account lib v path scheme ≡ derive_account lib w path scheme
  unfolding derive_account
  derive_account-open v w path scheme hv hw e = rw (hv, hw, e) refl

  derived_open :
      (v : Wallet) (path : DerivationPath) (scheme : Str) (a : Account)
      → derive_account lib v path scheme ≡ ok a
      → v.closed ≡ false
  unfolding derive_account
  derived_open v path scheme a e = (unless-eq-ok v.closed _ Error.runtime_error e).0

  derive_account-IsDerived :
      (v w : Wallet) (path : DerivationPath) (scheme : Str) (a : Account)
      → w.closed ≡ false
      → IsOpenOrWiped w.seed.buf v
      → derive_account lib v path scheme ≡ ok a
      → IsDerived w a
  derive_account-IsDerived v w path scheme a hw (inl (hv, same)) e =
      let (is_path, _, _) = account_of lib v path scheme a e in
      (
        scheme,
        ap (λ (p : DerivationPath). derive_account lib w p scheme) is_path
            ∙ sym (derive_account-open v w path scheme hv hw same)
            ∙ e,
      )
  derive_account-IsDerived v w path scheme a hw (inr (hv, same)) e =
      absurd (closed_refuses (derived_open v path scheme a e))
    where
      closed_refuses : ¬ (v.closed ≡ false)
      closed_refuses h = cc

  keep-All :
      (w : Wallet) (r : Result Account) (accounts : List Account)
      → ((a : Account) → r ≡ ok a → IsDerived w a)
      → All (IsDerived w) accounts
      → All (IsDerived w) (keep r accounts)
  keep-All w (ok a) accounts new old = (new a refl, old)
  keep-All w (err e) accounts new old = old

  close-IsSound :
      (w : Wallet) (s : Session) → IsSound w s → IsSound w (record s { wallet = close s.wallet })
  unfolding close
  close-IsSound w s h = record {
    seed = inr (close-IsOpenOrWiped w.seed.buf s.wallet h.seed);
    phrase = h.phrase;
    derived = h.derived;
  }

  pub act-IsSound :
      (w : Wallet) (s : Session) (c : Call)
      → w.closed ≡ false
      → IsSound w s
      → IsSound w (act lib s c).0
  unfolding act enter exit
  act-IsSound w s Call.get_mnemonic open' h = h
  act-IsSound w s Call.get_closed open' h = h
  act-IsSound w s Call.enter_with open' h = record {
    seed = h.seed;
    phrase = h.phrase;
    derived = h.derived;
  }
  act-IsSound w s Call.exit_with open' h = close-IsSound w s h
  act-IsSound w s Call.close_wallet open' h = close-IsSound w s h
  act-IsSound w s (Call.derive path scheme) open' h = record {
    seed = h.seed;
    phrase = h.phrase;
    derived =
        keep-All w (derive_account lib s.wallet path scheme) s.accounts
          (λ a. derive_account-IsDerived s.wallet w path scheme a open' h.seed) h.derived;
  }
  act-IsSound w s (Call.sign path message scheme aux) open' h = h
  act-IsSound w s (Call.account_sign k message aux) open' h = h

  pub start-IsSound : (w : Wallet) → w.closed ≡ false → IsSound w (start w)
  start-IsSound w open' = record { seed = inl (open', refl); phrase = refl; derived = tt }

  -- Whatever is called on an unlocked wallet, and in whatever order: it is open and holds its seed, or
  -- it is closed and holds zeros in its place; it keeps its phrase; and each account that it handed out
  -- is the one that the wallet derived at the account's path when it was open.
  pub Reach-IsSound :
      (w : Wallet) (s : Session) → w.closed ≡ false → Reach (start w) s → IsSound w s
  Reach-IsSound w s open' here = start-IsSound w open'
  Reach-IsSound w s open' (next {t} r c) = act-IsSound w t c open' (Reach-IsSound w t open' r)

  body-Reach : (s t : Session) (cs : List Call) → Reach s t → Reach s (body lib t cs).0
  unfolding body
  body-Reach s t [] r = r
  body-Reach s t (c ∷ cs) r = elim (Bool-cases (raised (act lib t c).1)) [
    | inl h ↦ rw h (next r c)
    | inr h ↦ rw h (body-Reach s (act lib t c).0 cs (next r c))
  ]

  body-answers : (s : Session) (cs : List Call) → (body lib s cs).1 ≡ until_raised (run lib s cs).1
  unfolding body run
  body-answers s [] = refl
  body-answers s (c ∷ cs) = elim (Bool-cases (raised (act lib s c).1)) [
    | inl h ↦ rw h refl
    | inr h ↦
        rw h (ap (λ (rest : List Answer). (act lib s c).1 ∷ rest) (body-answers (act lib s c).0 cs))
  ]

  -- A `with` statement on an unlocked wallet ends with the wallet closed and zeros for its seed, whatever
  -- its body calls and wherever it raises; the body's answers are those of the calls one after the other,
  -- up to the first exception.
  pub with_wallet_closes :
      (w : Wallet) (cs : List Call)
      → w.closed ≡ false
      → ((with_wallet lib (start w) cs).0.wallet.closed ≡ true)
        × ((with_wallet lib (start w) cs).0.wallet.seed.buf ≡ replicate (length w.seed.buf) 0)
        × All (IsDerived w) (with_wallet lib (start w) cs).0.accounts
        × ((with_wallet lib (start w) cs).1 ≡ until_raised (run lib (start w) cs).1)
  unfolding with_wallet act enter exit
  with_wallet_closes w cs open' =
      let h : IsSound w (body lib (start w) cs).0 =
        Reach-IsSound w (body lib (start w) cs).0 open' (body-Reach (start w) (start w) cs here) in
      let (shut, wiped) = close-IsOpenOrWiped w.seed.buf (body lib (start w) cs).0.wallet h.seed in
      (shut, wiped, h.derived, body-answers (start w) cs)
