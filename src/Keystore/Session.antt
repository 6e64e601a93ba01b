-- ===== src/Keystore/Session.antt =====
-- What a client does with an unlocked `Wallet` (src/keystonecrypto/keystore.py): a sequence of calls of
-- its methods and of the accounts that it handed out.
pub mod Vault
pub mod Reach
pub mod Genuine
use keystone_crypto.Prelude.{
  ℕ, List, [], ◌∷◌, Bool, true, false, Option, none, some, get_elem?, if◌then◌else◌,
}
use keystone_crypto.Errors.{Error, Result, ok, err}
use keystone_crypto.Bytes.{Bytes}
use keystone_crypto.Text.{Str}
use keystone_crypto.Mnemonic.{Mnemonic}
use keystone_crypto.Derivation.{DerivationPath}
use keystone_crypto.Signing.{Signature}
use keystone_crypto.Keystore.{
  Libraries, Account, Wallet, mnemonic_of, is_closed, close, enter, exit, derive_account,
  sign_message, sign_raw,
}

-- The calls of a client. `account_sign k` is `Account.sign` of the account that was derived as the last
-- but `k`. The last argument of a signing call is the randomness that the curve library draws in it.
pub data Call : Type 0 where
  get_mnemonic get_closed enter_with exit_with close_wallet : Call
  derive : DerivationPath → Str → Call
  sign : DerivationPath → Bytes → Str → Bytes → Call
  account_sign : ℕ → Bytes → Bytes → Call

-- What a call returns or raises. `nothing` is `None`, or that the client has no such account.
pub data Answer : Type 0 where
  nothing : Answer
  phrase : Option Mnemonic → Answer
  flag : Bool → Answer
  account : Result Account → Answer
  signature : Result Signature → Answer
  raw : Result Bytes → Answer

-- The wallet, and the accounts that the client was given, the last one first.
pub record Session : Type 0 where
  pub wallet : Wallet
  pub accounts : List Account

abbrev pub start : Wallet → Session
start w = record { wallet = w; accounts = [] }

abbrev pub keep : Result Account → List Account → List Account
keep (ok a) accounts = a ∷ accounts
keep (err e) accounts = accounts

abbrev pub is_err {ℓ} : {A : Type ℓ} → Result A → Bool
is_err (ok a) = false
is_err (err e) = true

-- The call raises an exception.
unfoldable pub raised : Answer → Bool
raised (Answer.account r) = is_err r
raised (Answer.signature r) = is_err r
raised (Answer.raw r) = is_err r
raised _ = false

module _ (lib : Libraries) where
  unfoldable pub sign_with : Option Account → Bytes → Bytes → Answer
  sign_with none message aux = Answer.nothing
  sign_with (some a) message aux = Answer.raw (sign_raw lib a message aux)

  unfoldable pub act : Session → Call → Session × Answer
  act s Call.get_mnemonic = (s, Answer.phrase (mnemonic_of s.wallet))
  act s Call.get_closed = (s, Answer.flag (is_closed s.wallet))
  act s Call.enter_with = (record s { wallet = enter s.wallet }, Answer.nothing)
  act s Call.exit_with = (record s { wallet = exit s.wallet }, Answer.nothing)
  act s Call.close_wallet = (record s { wallet = close s.wallet }, Answer.nothing)
  act s (Call.derive path scheme) =
      let r = derive_account lib s.wallet path scheme in
      (record s { accounts = keep r s.accounts }, Answer.account r)
  act s (Call.sign path message scheme aux) =
      (s, Answer.signature (sign_message lib s.wallet path message scheme aux))
  act s (Call.account_sign k message aux) = (s, sign_with (get_elem? s.accounts k) message aux)

  unfoldable pub run : Session → List Call → Session × List Answer
  run s [] = (s, [])
  run s (c ∷ cs) = let (t, answer) = act s c in let (u, answers) = run t cs in (u, answer ∷ answers)

  -- The body of a `with` statement ends at the first exception.
  unfoldable pub body : Session → List Call → Session × List Answer
  body s [] = (s, [])
  body s (c ∷ cs) =
      let (t, answer) = act s c in
      let (u, answers) = body t cs in
      if raised answer then (t, answer ∷ []) else (u, answer ∷ answers)

  -- `with wallet: ...` calls `__exit__` however the body ends.
  unfoldable pub with_wallet : Session → List Call → Session × List Answer
  with_wallet s cs =
      let (t, answers) = body (act s Call.enter_with).0 cs in ((act t Call.exit_with).0, answers)
