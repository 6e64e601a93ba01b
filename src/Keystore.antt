-- ===== src/Keystore.antt =====
-- src/keystonecrypto/keystore.py: wallets, the keystore file and how it is unlocked.
pub mod Closed
pub mod Outcomes
pub mod Creates
pub mod Sign
pub mod Signs
pub mod Unbound
pub mod RoundTrip
pub mod Session
use keystone_crypto.Prelude.{
  ℕ, ◌/◌, List, [], ◌∷◌, Bool, true, false, ◌||◌, not, Option, none, some, length, ◌==◌,
  if◌then◌else◌,
}
use keystone_crypto.Errors.{Error, Result, ok, err, ◌>>=◌, ◌>>◌, require}
use keystone_crypto.Bytes.{Bytes, ℤ, pos, equal}
use keystone_crypto.Text.{Str}
use keystone_crypto.Unicode.{Unicode, encode_utf8}
use keystone_crypto.Hashes.{Hashes}
use keystone_crypto.SecretBytes.{SecretBytes, Value, new, zeroize, bytes_hex}
use keystone_crypto.Kdf.{Argon2, Argon2Params}
use keystone_crypto.Aead.{AesGcm}
use keystone_crypto.Envelope.{UnpackedKeystore, pack, unpack}
use keystone_crypto.Mnemonic.{Mnemonic, from_entropy, entropy}
use keystone_crypto.Derivation.{DerivationPath, ExtendedPrivateKey, derive_from_seed}
use keystone_crypto.Signing.{
  Secp256k1, Ed25519, Signer, Signature, ecdsa, schnorr, ed25519, new_secp256k_signer,
  new_schnorr_signer, new_ed25519_signer, public_key_bytes, sign, serialize,
}

-- What the keystore is built on.
pub record Libraries : Type 0 where
  pub hashes : Hashes
  pub curve : Secp256k1
  pub ed : Ed25519
  pub argon2 : Argon2
  pub aes : AesGcm
  pub unicode : Unicode

pub record Account : Type 0 where
  pub path : DerivationPath
  pub signer : Signer
  pub public_key : Bytes

unfoldable pub public_key_hex : Account → Str
public_key_hex self = bytes_hex self.public_key

pub record Wallet : Type 0 where
  pub mnemonic : Option Mnemonic
  pub seed : SecretBytes
  pub closed : Bool

-- `Wallet(mnemonic, seed)`
abbrev pub new_wallet : Option Mnemonic → SecretBytes → Wallet
new_wallet mnemonic seed = record { mnemonic = mnemonic; seed = seed; closed = false }

-- `Wallet.mnemonic` and `Wallet.is_closed`
unfoldable pub mnemonic_of : Wallet → Option Mnemonic
mnemonic_of self = self.mnemonic

unfoldable pub is_closed : Wallet → Bool
is_closed self = self.closed

-- `close`, `__enter__` and `__exit__`
unfoldable pub close : Wallet → Wallet
close self = record self { seed = zeroize self.seed; closed = true }

unfoldable pub enter : Wallet → Wallet
enter self = self

unfoldable pub exit : Wallet → Wallet
exit self = close self

-- An argument that should be a `str`.
pub data Argument : Type 0 where
  text : Str → Argument
  other : Argument

pub record KeystoreContext : Type 0 where
  pub blob : Bytes

-- `KeystoreContext.__enter__` and `__exit__`
unfoldable pub enter_context : KeystoreContext → KeystoreContext
enter_context self = self

unfoldable pub exit_context : KeystoreContext → KeystoreContext
exit_context self = self

pub record Keystore : Type 0 where
  pub blob : Bytes
  pub params : Argon2Params
  pub has_passphrase : Bool
  pub created_at : ℤ

-- A call that holds the password in a buffer: its result, and that buffer as the call leaves it.
abbrev pub Holding : Type 0 → Type 0
Holding A = Result A × Option SecretBytes

unfoldable pub with_secret :
    {A : Type 0} → Result SecretBytes → (SecretBytes → Holding A) → Holding A
with_secret (err e) k = (err e, none)
with_secret (ok pw) k = k pw

-- The statement behind the password's last use zeroizes it; an exception passes that by.
unfoldable pub then_zeroize : {A B : Type 0} → SecretBytes → Result A → (A → Result B) → Holding B
then_zeroize pw (err e) k = (err e, some pw)
then_zeroize pw (ok a) k = (k a, some (zeroize pw))

unfoldable pub secret_text : Str → Result SecretBytes
secret_text password = do b ← encode_utf8 password; new b

unfoldable pub or_none : Result Mnemonic → Option Mnemonic
or_none (ok m) = some m
or_none (err e) = none

-- The files by their paths.
abbrev pub Files : Type 0
Files = Str → Option Bytes

-- `Path(path).write_bytes(self.blob)`
unfoldable pub save : Keystore → Str → Files → Files
save self path files p = if equal path p then some self.blob else files p

opened : Option Bytes → Result KeystoreContext
opened none = err Error.os_error
opened (some blob) = ok (record { blob = blob })

-- `Keystore.open(path)`
unfoldable pub open_keystore : Str → Files → Result KeystoreContext
unfolding opened
open_keystore path files = opened (files path)

module _ (lib : Libraries) where
  open lib use {hashes, curve, ed, argon2, aes, unicode}

  -- `Account.sign`; `aux` is what the curve library draws in this call, here and in `sign_message`.
  unfoldable pub sign_raw : Account → Bytes → Bytes → Result Bytes
  sign_raw self message aux = do s ← sign hashes curve ed self.signer message aux; ok (serialize s)

  unfoldable pub signer_for : SecretBytes → Str → Result Signer
  signer_for sk scheme =
      if equal scheme ecdsa
      then new_secp256k_signer hashes curve ed sk
      else if equal scheme schnorr
      then new_schnorr_signer hashes curve ed sk
      else if equal scheme ed25519
      then new_ed25519_signer hashes curve ed sk
      else err Error.value_error

  unfoldable pub derive_account : Wallet → DerivationPath → Str → Result Account
  derive_account self path scheme = if self.closed then err Error.runtime_error else do
    xprv ← derive_from_seed hashes curve self.seed path
    signer ← signer_for xprv.secret_key scheme
    ok (record {
      path = path;
      signer = signer;
      public_key = public_key_bytes hashes curve ed signer;
    })

  unfoldable pub sign_message : Wallet → DerivationPath → Bytes → Str → Bytes → Result Signature
  sign_message self path message scheme aux = if self.closed then err Error.runtime_error else do
    account ← derive_account self path scheme
    sign hashes curve ed account.signer message aux

  -- The loop over the bit lengths; `break` ends it at the first that fits.
  unfoldable pub reconstruct : List ℕ → SecretBytes → Option Mnemonic
  reconstruct [] seed = none
  reconstruct (bits ∷ rest) seed =
      if length seed.buf == bits / 8
      then or_none (from_entropy hashes (Value.secret seed))
      else reconstruct rest seed

  unfoldable pub unlock : KeystoreContext → Argument → Holding Wallet
  unfolding secret_text
  unlock self Argument.other = (err Error.type_error, none)
  unlock self (Argument.text password) = with_secret (secret_text password) λ pw_secret.
      then_zeroize pw_secret (unpack argon2 aes self.blob pw_secret) λ unpacked.
        ok (new_wallet (reconstruct (128 ∷ 160 ∷ 192 ∷ 224 ∷ 256 ∷ []) unpacked.seed) unpacked.seed)

  -- `token_bytes`, `urandom` and `now` are those of `Envelope.pack`.
  unfoldable pub create :
      (ℕ → Bytes) → (ℕ → Bytes) → ℤ → Mnemonic → Argument → Argon2Params → Bool → Holding Keystore
  unfolding secret_text
  create token_bytes urandom now mnemonic Argument.other params has_passphrase =
      (err Error.value_error, none)
  create token_bytes urandom now mnemonic (Argument.text password) params has_passphrase =
      if length password == 0
      then (err Error.value_error, none)
      else with_secret (secret_text password) λ pw_secret.
        then_zeroize pw_secret
          (do
            seed ← entropy unicode mnemonic
            pack argon2 aes token_bytes urandom now seed pw_secret params 1 has_passphrase none)
          λ blob. ok (record {
            blob = blob;
            params = params;
            has_passphrase = has_passphrase;
            created_at = pos 0;
          })
