-- ===== src/Keystore/RoundTrip.antt =====
-- `Keystore.create`, `save` and `open`, and `KeystoreContext.unlock` (src/keystonecrypto/keystore.py).
use keystone_crypto.Prelude.{
  ℕ, ◌+◌, ◌*◌, ◌≤◌, ◌<◌, ◌≡◌, ◌≢◌, refl, sym, ap, ◌∙◌, [], ◌∷◌, ◌++◌, Bool, none, some, length,
  length-append, arith,
}
use keystone_crypto.Errors.{ok, >>=-eq-ok, ok-injective, if_false}
use keystone_crypto.Bytes.{Bytes, AreBytes, ℤ, pos, IsI64, equal_refl, not_empty}
use keystone_crypto.Text.{Str}
use keystone_crypto.Unicode.{IsUnicode, utf8_char, encode_utf8}
use keystone_crypto.Hashes.{IsHashes}
use keystone_crypto.SecretBytes.{SecretBytes, Value, zeroize}
use keystone_crypto.Kdf.{Argon2Params}
use keystone_crypto.Aead.{IsAesGcm}
use keystone_crypto.Envelope.{pack, unpack}
use keystone_crypto.Envelope.Sections.{FitsHeader}
use keystone_crypto.Envelope.Plaintext.{new_of_ne-nil}
use keystone_crypto.Envelope.RoundTrip.{hash_of, unpack-pack}
use keystone_crypto.Mnemonic.{Mnemonic, from_entropy, entropy}
use keystone_crypto.Mnemonic.RoundTrip.{from_entropy_lem, entropy_lem}
use keystone_crypto.Keystore.{
  Libraries, Keystore, Argument, new_wallet, with_secret, then_zeroize, secret_text, or_none,
  reconstruct, unlock, create, save, open_keystore, Files,
}

utf8_char-ne-nil : (c : ℕ) (b : Bytes) → utf8_char c ≡ ok b → 0 < length b
unfolding utf8_char
utf8_char-ne-nil c b h = ground arith

-- The encoding of a password that is not empty is not empty.
encode_utf8-ne-nil : (s : Str) (b : Bytes) → s ≢ [] → encode_utf8 s ≡ ok b → b ≢ []
unfolding encode_utf8
encode_utf8-ne-nil [] b ne h = absurd (ne refl)
encode_utf8-ne-nil (c ∷ s) b ne h =
    let (x, hx, after) = >>=-eq-ok (utf8_char c) _ h in
    let (xs, _, e) = >>=-eq-ok (encode_utf8 s) _ after in
    let same : x ++ xs ≡ b = ok-injective e in
    λ nil.
      absurd (omega (arith, ap length (same ∙ nil), length-append x xs, utf8_char-ne-nil c x hx))

pub reconstruct_fits :
    (lib : Libraries) (seed : SecretBytes) (k : ℕ)
    → length seed.buf ≡ 4 * k
    → 4 ≤ k
    → k ≤ 8
    → reconstruct lib (128 ∷ 160 ∷ 192 ∷ 224 ∷ 256 ∷ []) seed
      ≡ or_none (from_entropy lib.hashes (Value.secret seed))
unfolding reconstruct
reconstruct_fits lib seed k h lo hi = ground arith

module _ (lib : Libraries) (h_laws : IsHashes lib.hashes) (u_laws : IsUnicode lib.unicode)
    (is_aes : IsAesGcm lib.aes) (ent : Bytes) (k : ℕ) (four_k : length ent ≡ 4 * k) (lo : 4 ≤ k)
    (hi : k ≤ 8) (ent_bytes : AreBytes ent) (m : Mnemonic)
    (own : from_entropy lib.hashes (Value.secret (record { buf = ent })) ≡ ok m)
    (token_bytes urandom : ℕ → Bytes) (now : ℤ) (params : Argon2Params) (hp : Bool) (password : Str)
    (pw raw : Bytes) (salt_length : length (token_bytes params.salt_len) ≡ params.salt_len)
    (nonce_length : length (urandom 12) ≡ 12) (salt_16 : params.salt_len ≡ 16)
    (key_length : params.hash_len ≡ 32) (fits : FitsHeader params) (now_fits : IsI64 now)
    (password_ne_nil : password ≢ []) (encoded : encode_utf8 password ≡ ok pw)
    (hashed : hash_of lib.argon2 (record { buf = pw }) params (token_bytes params.salt_len)
      ≡ ok raw)
    (raw_length : length raw ≡ 32) where
  abbrev pub secret : SecretBytes
  secret = record { buf = pw }

  abbrev pub entropy_secret : SecretBytes
  entropy_secret = record { buf = ent }

  entropy_own : entropy lib.unicode m ≡ ok entropy_secret
  entropy_own =
      ap (entropy lib.unicode) (
        ok-injective (
          sym own
          ∙ from_entropy_lem lib.hashes h_laws lib.unicode u_laws ent k four_k (omega arith)
              (omega arith) ent_bytes))
      ∙ entropy_lem lib.hashes h_laws lib.unicode u_laws ent k four_k (omega arith) (omega arith)
          ent_bytes

  secret_made : secret_text password ≡ ok secret
  unfolding secret_text
  secret_made =
      rw (encoded, new_of_ne-nil pw (encode_utf8-ne-nil password pw password_ne_nil encoded))

  packed :
      (b : Bytes) × (pack lib.argon2 lib.aes token_bytes urandom now entropy_secret secret params 1
          hp none
        ≡ ok b)
      × (unpack lib.argon2 lib.aes b secret
          ≡ ok (record { seed = entropy_secret; has_passphrase = hp; created_at = now }))
      × (length b ≡ 98 + length ent)
  packed =
      unpack-pack lib.argon2 lib.aes is_aes token_bytes urandom now entropy_secret secret params hp
        none raw salt_length nonce_length (omega arith) key_length fits now_fits hashed raw_length
        salt_16 (λ nil. absurd (omega (arith, ap length nil)))

  keystore : Keystore
  keystore = record { blob = packed.0; params = params; has_passphrase = hp; created_at = pos 0 }

  created :
      create lib token_bytes urandom now m (Argument.text password) params hp
      ≡ (ok keystore, some (zeroize secret))
  unfolding create keystore with_secret then_zeroize
  created =
      rw (secret_made, entropy_own, packed.1) (if_false _ _ (not_empty password password_ne_nil))

  unlocked :
      unlock lib (record { blob = packed.0 }) (Argument.text password)
      ≡ (ok (new_wallet (some m) entropy_secret), some (zeroize secret))
  unfolding unlock with_secret then_zeroize or_none
  unlocked = rw (secret_made, packed.2, reconstruct_fits lib entropy_secret k four_k lo hi, own)

  -- The mnemonic of some entropy of 16, 20, 24, 28 or 32 bytes is stored under a password, the file is
  -- written and opened, and unlocking it with that password gives an open wallet with the mnemonic and
  -- the entropy. Both calls leave the password's buffer zeroized. This is for a password that is not
  -- empty and can be encoded, parameters of at most 32 bits with a salt length of 16 and a hash length
  -- of 32, a clock of 64 bits, random sources that give as many bytes as they are asked for, an Argon2
  -- that returns a hash of 32 bytes, and libraries that do what they document.
  pub unlock-create :
      (path : Str) (files : Files)
      → (ks : Keystore) × (create lib token_bytes urandom now m (Argument.text password) params hp
          ≡ (ok ks, some (zeroize secret)))
        × (open_keystore path (save ks path files) ≡ ok (record { blob = ks.blob }))
        × (unlock lib (record { blob = ks.blob }) (Argument.text password)
            ≡ (ok (new_wallet (some m) entropy_secret), some (zeroize secret)))
  unfolding keystore open_keystore save
  unlock-create path files = (keystore, created, rw (equal_refl path), unlocked)
