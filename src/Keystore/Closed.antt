-- ===== src/Keystore/Closed.antt =====
-- The life of a `Wallet` (src/keystonecrypto/keystore.py): unlocking and closing.
use keystone_crypto.Prelude.{
  ◌⊎◌, inl, inr, ℕ, ◌*◌, ◌≤◌, ◌≡◌, refl, ap, ◌∙◌, [], ◌∷◌, true, false, some, length, replicate,
  arith,
}
use keystone_crypto.Errors.{Error, Result, ok, err, ok-injective}
use keystone_crypto.Bytes.{Bytes, AreBytes}
use keystone_crypto.Text.{Str}
use keystone_crypto.Unicode.{IsUnicode}
use keystone_crypto.Hashes.{IsHashes}
use keystone_crypto.SecretBytes.{SecretBytes, zeroize}
use keystone_crypto.SecretBytes.Zeroize.{zeroize-replicate, zeroize_idem}
use keystone_crypto.Envelope.{UnpackedKeystore, unpack}
use keystone_crypto.Derivation.{DerivationPath}
use keystone_crypto.Mnemonic.{Mnemonic, entropy}
use keystone_crypto.Mnemonic.RoundTrip.{phrase_of, from_entropy_lem, entropy_lem}
use keystone_crypto.Keystore.{
  Libraries, Wallet, KeystoreContext, Argument, close, exit, new_wallet, with_secret, then_zeroize,
  secret_text, or_none, reconstruct, unlock, derive_account, sign_message,
}
use keystone_crypto.Keystore.RoundTrip.{reconstruct_fits}

-- A closed wallet holds zeros for its seed, derives and signs nothing, and stays as it is when it
-- is closed again or left by the context manager.
pub close_ends :
    (lib : Libraries) (w : Wallet) (path : DerivationPath) (message : Bytes) (scheme : Str)
    (aux : Bytes)
    → ((close w).seed.buf ≡ replicate (length w.seed.buf) 0)
      × (derive_account lib (close w) path scheme ≡ err Error.runtime_error)
      × (sign_message lib (close w) path message scheme aux ≡ err Error.runtime_error)
      × (exit (close w) ≡ close w)
unfolding close exit derive_account sign_message
close_ends lib w path message scheme aux = (
  ap (λ (s : SecretBytes). s.buf) (zeroize-replicate w.seed),
  refl,
  refl,
  ap (λ (s : SecretBytes). record w { seed = s; closed = true }) (zeroize_idem w.seed).0,
)

-- A call of `unlock` with a password that can be encoded and is not empty either returns a wallet, and
-- then the password's buffer holds zeros, or raises an exception, and then the buffer still holds the
-- password.
pub unlock_buffer :
    (lib : Libraries) (ctx : KeystoreContext) (password : Str) (pw : SecretBytes)
    → secret_text password ≡ ok pw
    → ((w : Wallet) × (unlock lib ctx (Argument.text password) ≡ (ok w, some (zeroize pw))))
      ⊎ ((e : Error) × (unlock lib ctx (Argument.text password) ≡ (err e, some pw)))
unfolding unlock with_secret then_zeroize
unlock_buffer lib ctx password pw h = rw h (split (unpack lib.argon2 lib.aes ctx.blob pw))
  where
    after : UnpackedKeystore → Result Wallet
    after u = ok (new_wallet (reconstruct lib (128 ∷ 160 ∷ 192 ∷ 224 ∷ 256 ∷ []) u.seed) u.seed)

    split :
        (r : Result UnpackedKeystore)
        → ((w : Wallet) × (then_zeroize pw r after ≡ (ok w, some (zeroize pw))))
          ⊎ ((e : Error) × (then_zeroize pw r after ≡ (err e, some pw)))
    split (ok u) =
        inl (new_wallet (reconstruct lib (128 ∷ 160 ∷ 192 ∷ 224 ∷ 256 ∷ []) u.seed) u.seed, refl)
    split (err x) = inr (x, refl)

unlocked_wallet :
    (lib : Libraries) (ctx : KeystoreContext) (password : Str) (w : Wallet)
    → (unlock lib ctx (Argument.text password)).0 ≡ ok w
    → (w.mnemonic ≡ reconstruct lib (128 ∷ 160 ∷ 192 ∷ 224 ∷ 256 ∷ []) w.seed) × (w.closed ≡ false)
unfolding unlock then_zeroize with_secret
unlocked_wallet lib ctx password w = from_secret (secret_text password)
  where
    wallet_of : SecretBytes → Wallet
    wallet_of s = new_wallet (reconstruct lib (128 ∷ 160 ∷ 192 ∷ 224 ∷ 256 ∷ []) s) s

    fits :
        (s : SecretBytes)
        → wallet_of s ≡ w
        → (w.mnemonic ≡ reconstruct lib (128 ∷ 160 ∷ 192 ∷ 224 ∷ 256 ∷ []) w.seed)
          × (w.closed ≡ false)
    fits s e = rw (← e) (refl, refl)

    from_unpacked :
        (pw : SecretBytes) (r : Result UnpackedKeystore)
        → (then_zeroize pw r (λ u. ok (wallet_of u.seed))).0 ≡ ok w
        → (w.mnemonic ≡ reconstruct lib (128 ∷ 160 ∷ 192 ∷ 224 ∷ 256 ∷ []) w.seed)
          × (w.closed ≡ false)
    from_unpacked pw (ok u) e = fits u.seed (ok-injective e)
    from_unpacked pw (err x) e = cc

    from_secret :
        (r : Result SecretBytes)
        → (with_secret r (λ pw.
            then_zeroize pw (unpack lib.argon2 lib.aes ctx.blob pw) (λ u. ok (wallet_of u.seed)))).0
          ≡ ok w
        → (w.mnemonic ≡ reconstruct lib (128 ∷ 160 ∷ 192 ∷ 224 ∷ 256 ∷ []) w.seed)
          × (w.closed ≡ false)
    from_secret (ok pw) e = from_unpacked pw (unpack lib.argon2 lib.aes ctx.blob pw) e
    from_secret (err x) e = cc

-- A wallet that was unlocked from 16, 20, 24, 28 or 32 bytes of entropy keeps its phrase when it is
-- closed, and the phrase still gives the entropy that the closing overwrote. The hash and the Unicode
-- tables follow their standards.
pub close_keeps_entropy :
    (lib : Libraries)
    → IsHashes lib.hashes
    → IsUnicode lib.unicode
    → (ctx : KeystoreContext) (password : Str) (w : Wallet) (k : ℕ)
    → (unlock lib ctx (Argument.text password)).0 ≡ ok w
    → length w.seed.buf ≡ 4 * k
    → 4 ≤ k
    → k ≤ 8
    → AreBytes w.seed.buf
    → (m : Mnemonic) × ((close w).mnemonic ≡ some m)
      × (entropy lib.unicode m ≡ ok w.seed)
      × ((close w).seed.buf ≡ replicate (length w.seed.buf) 0)
unfolding close or_none
close_keeps_entropy lib h_laws u_laws ctx password w k e four_k lo hi bytes = (
  phrase_of lib.hashes h_laws lib.unicode u_laws w.seed.buf k four_k (omega arith) (omega arith)
      bytes,
  (unlocked_wallet lib ctx password w e).0
      ∙ reconstruct_fits lib w.seed k four_k lo hi
      ∙ ap or_none (
          from_entropy_lem lib.hashes h_laws lib.unicode u_laws w.seed.buf k four_k (omega arith)
            (omega arith) bytes),
  entropy_lem lib.hashes h_laws lib.unicode u_laws w.seed.buf k four_k (omega arith) (omega arith)
      bytes,
  ap (λ (s : SecretBytes). s.buf) (zeroize-replicate w.seed),
)
