-- ===== src/Keystore/Outcomes.antt =====
-- Every way in which `KeystoreContext.unlock` (src/keystonecrypto/keystore.py) ends.
use keystone_crypto.Prelude.{
  ◌⊎◌, inl, inr, ◌≡◌, ℕ, ◌*◌, ◌/◌, ◌%◌, ◌≤◌, ◌==◌, ==_iff, length, arith, refl, ap, ◌∙◌, [], ◌∷◌,
  false, some, none, Bool-cases, ltb, leb, ◌&&◌,
}
use keystone_crypto.Errors.{Error, ok, err, Result-cases}
use keystone_crypto.Errors.Raises.{Raises, Raises-err, Raises->>=}
use keystone_crypto.Bytes.{Bytes, AreBytes}
use keystone_crypto.Text.{Str}
use keystone_crypto.Unicode.{utf8_char, encode_utf8}
use keystone_crypto.SecretBytes.{SecretBytes, Value, zeroize}
use keystone_crypto.Kdf.{IsSelfContained}
use keystone_crypto.Envelope.{UnpackedKeystore, unpack}
use keystone_crypto.Envelope.StepErrors.{new-Raises}
use keystone_crypto.Envelope.Raised.{HashIsNoKey, SeedIsEmpty, IsForeign, unpack_raises}
use keystone_crypto.Mnemonic.{from_entropy}
use keystone_crypto.Keystore.RoundTrip.{reconstruct_fits}
use keystone_crypto.Keystore.{
  Libraries, Wallet, KeystoreContext, Argument, new_wallet, with_secret, then_zeroize, secret_text,
  or_none, reconstruct, unlock,
}

abbrev IsValueError : Error → Type 0
IsValueError e = e ≡ Error.value_error

utf8_char-Raises : (c : ℕ) → Raises IsValueError (utf8_char c)
unfolding utf8_char
utf8_char-Raises c = elim (Bool-cases (ltb c 0x80)) [
  | inl one ↦ rw one tt
  | inr more ↦ elim (Bool-cases (ltb c 0x800)) [
    | inl two ↦ rw (more, two) tt
    | inr most ↦ elim (Bool-cases (leb 0xd800 c && leb c 0xdfff)) [
      | inl surrogate ↦ rw (more, most, surrogate) refl
      | inr other ↦ elim (Bool-cases (ltb c 0x10000)) [
        | inl three ↦ rw (more, most, other, three) tt
        | inr four ↦ rw (more, most, other, four) tt
      ]
    ]
  ]
]

encode_utf8-Raises : (s : Str) → Raises IsValueError (encode_utf8 s)
unfolding encode_utf8
encode_utf8-Raises [] = tt
encode_utf8-Raises (c ∷ s) =
    Raises->>= IsValueError (utf8_char c) _ (utf8_char-Raises c)
      λ b _. Raises->>= IsValueError (encode_utf8 s) _ (encode_utf8-Raises s) λ bs _. tt

secret_text-Raises : (s : Str) → Raises IsValueError (secret_text s)
unfolding secret_text
secret_text-Raises s =
    Raises->>= IsValueError (encode_utf8 s) _ (encode_utf8-Raises s)
      λ b _. new-Raises IsValueError b (λ e. refl)

pub secret_text_refused :
    (s : Str) (e : Error) → secret_text s ≡ err e → secret_text s ≡ err Error.value_error
secret_text_refused s e refused =
    refused ∙ ap err (Raises-err IsValueError (secret_text s) (secret_text-Raises s) refused)

-- The exceptions of reading the blob `b` under the password `pw`.
abbrev pub IsUnlockError : Libraries → Bytes → SecretBytes → Error → Type 0
IsUnlockError lib b pw e =
    (e ≡ Error.keystore_decryption)
    ⊎ ((e ≡ Error.keystore_version) × IsForeign lib.argon2 lib.aes b pw)
    ⊎ (e ≡ Error.foreign)
    ⊎ ((e ≡ Error.value_error)
        × (HashIsNoKey lib.argon2 lib.aes b pw ⊎ SeedIsEmpty lib.argon2 lib.aes b pw))

-- The length of an entropy that has a phrase: 16, 20, 24, 28 or 32 bytes.
abbrev pub IsPhraseLength : ℕ → Type 0
IsPhraseLength n = (k : ℕ) × (n ≡ 4 * k) × (4 ≤ k) × (k ≤ 8)

length_cases : (n : ℕ) → IsPhraseLength n ⊎ ¬ IsPhraseLength n
length_cases n = elim (Bool-cases (n % 4 == 0 && leb 16 n && leb n 32)) [
  | inl inside ↦ inl (n / 4, ground arith, ground arith, ground arith)
  | inr outside ↦ inr λ (k, size, lo, hi). excluded k size lo hi outside
]
  where
    excluded :
        (k : ℕ) → n ≡ 4 * k → 4 ≤ k → k ≤ 8 → (n % 4 == 0 && leb 16 n && leb n 32) ≡ false → ⊥
    excluded k size lo hi outside = ground arith

reconstruct-none :
    (lib : Libraries) (seed : SecretBytes)
    → ¬ IsPhraseLength (length seed.buf)
    → reconstruct lib (128 ∷ 160 ∷ 192 ∷ 224 ∷ 256 ∷ []) seed ≡ none
unfolding reconstruct
reconstruct-none lib seed other =
    rw
      (
        differs 4 (omega arith) (omega arith),
        differs 5 (omega arith) (omega arith),
        differs 6 (omega arith) (omega arith),
        differs 7 (omega arith) (omega arith),
        differs 8 (omega arith) (omega arith),
      )
      refl
  where
    differs : (k : ℕ) → 4 ≤ k → k ≤ 8 → (length seed.buf == 4 * k) ≡ false
    differs k lo hi = elim (Bool-cases (length seed.buf == 4 * k)) [
      | inl same ↦ absurd (other (k, (==_iff (length seed.buf) (4 * k)).0 same, lo, hi))
      | inr e ↦ e
    ]

-- The wallet of an opened blob: it is open, it has the seed of the blob, and it has the phrase of that
-- seed if the seed has the length for one.
pub record IsWalletOf (lib : Libraries) (u : UnpackedKeystore) (w : Wallet) : Type 0 where
  pub opened : w.closed ≡ false
  pub same_seed : w.seed ≡ u.seed
  pub phrase :
      (IsPhraseLength (length u.seed.buf)
        × (w.mnemonic ≡ or_none (from_entropy lib.hashes (Value.secret u.seed))))
      ⊎ (¬ IsPhraseLength (length u.seed.buf) × (w.mnemonic ≡ none))

abbrev wallet_of : Libraries → UnpackedKeystore → Wallet
wallet_of lib u = new_wallet (reconstruct lib (128 ∷ 160 ∷ 192 ∷ 224 ∷ 256 ∷ []) u.seed) u.seed

wallet_of-IsWalletOf : (lib : Libraries) (u : UnpackedKeystore) → IsWalletOf lib u (wallet_of lib u)
wallet_of-IsWalletOf lib u = record {
  opened = refl;
  same_seed = refl;
  phrase = elim (length_cases (length u.seed.buf)) [
    | inl (k, size, lo, hi) ↦ inl ((k, size, lo, hi), reconstruct_fits lib u.seed k size lo hi)
    | inr other ↦ inr (other, reconstruct-none lib u.seed other)
  ];
}

-- However `unlock` is called with a text, on whatever blob, it ends in one of three ways. Making a
-- buffer of the password fails: `ValueError`, and there is no buffer. The blob is opened: an open wallet
-- with its seed, and with the phrase of that seed if it has 16, 20, 24, 28 or 32 bytes and
-- `from_entropy` returns; the password's buffer holds zeros. The blob is not opened: the exception of
-- `Envelope.unpack`, and the buffer still holds the password. Argon2 raises its own exceptions only.
pub unlock_outcomes :
    (lib : Libraries) (ctx : KeystoreContext) (password : Str)
    → IsSelfContained lib.argon2
    → AreBytes ctx.blob
    → ((secret_text password ≡ err Error.value_error)
        × (unlock lib ctx (Argument.text password) ≡ (err Error.value_error, none)))
      ⊎ ((pw : SecretBytes) × (u : UnpackedKeystore) × (w : Wallet) × (secret_text password ≡ ok pw)
          × (unpack lib.argon2 lib.aes ctx.blob pw ≡ ok u)
          × (unlock lib ctx (Argument.text password) ≡ (ok w, some (zeroize pw)))
          × IsWalletOf lib u w)
      ⊎ ((pw : SecretBytes) × (e : Error) × (secret_text password ≡ ok pw)
          × (unpack lib.argon2 lib.aes ctx.blob pw ≡ err e)
          × (unlock lib ctx (Argument.text password) ≡ (err e, some pw))
          × IsUnlockError lib ctx.blob pw e)
unfolding unlock with_secret then_zeroize
unlock_outcomes lib ctx password contained are_bytes = elim (Result-cases (secret_text password)) [
  | inl (pw, encoded) ↦ elim (Result-cases (unpack lib.argon2 lib.aes ctx.blob pw)) [
    | inl (u, unpacked) ↦ inr (
        inl (
          pw,
          u,
          wallet_of lib u,
          encoded,
          unpacked,
          rw (encoded, unpacked) refl,
          wallet_of-IsWalletOf lib u,
        ))
    | inr (e, refused) ↦ inr (
        inr (
          pw,
          e,
          encoded,
          refused,
          rw (encoded, refused) refl,
          unpack_raises lib.argon2 lib.aes ctx.blob pw contained are_bytes e refused,
        ))
  ]
  | inr (e, refused) ↦
      let value_refused : secret_text password ≡ err Error.value_error =
        secret_text_refused password e refused in
      inl (value_refused, rw value_refused refl)
]
