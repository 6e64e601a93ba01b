-- ===== src/Keystore/Creates.antt =====
-- Every way in which `Keystore.create` (src/keystonecrypto/keystore.py) ends.
use keystone_crypto.Prelude.{
  ℕ, ◌≤◌, ◌≡◌, ◌≢◌, ◌⊎◌, inl, inr, refl, sym, ap, ◌∙◌, [], Bool, false, none, some, length, ◌==◌,
  ==_iff, Bool-cases, arith,
}
use keystone_crypto.Errors.{Error, ok, err, Result-cases}
use keystone_crypto.Errors.Raises.{Raises-err}
use keystone_crypto.Bytes.{Bytes, ℤ, pos, IsI64, not_empty}
use keystone_crypto.Text.{Str}
use keystone_crypto.Unicode.{encode_utf8}
use keystone_crypto.SecretBytes.{SecretBytes, new, zeroize}
use keystone_crypto.Kdf.{Argon2, Argon2Params, IsArgon2, IsSelfContained}
use keystone_crypto.Kdf.Laws.{IsParams}
use keystone_crypto.Aead.{IsAesGcm}
use keystone_crypto.Envelope.{pack}
use keystone_crypto.Envelope.PackErrors.{pack_hash_len, pack_unhashed}
use keystone_crypto.Envelope.Sections.{FitsHeader}
use keystone_crypto.Envelope.RoundTrip.{hash_of, pack_returns}
use keystone_crypto.Mnemonic.{Mnemonic, from_phrase, entropy}
use keystone_crypto.Mnemonic.Accepted.{SpellsEntropy, from_phrase-SpellsEntropy}
use keystone_crypto.Keystore.{
  Libraries, Keystore, Argument, Holding, with_secret, then_zeroize, secret_text, create,
}
use keystone_crypto.Keystore.Outcomes.{secret_text_refused}

-- The bounds of public construction leave room in the header.
IsParams-FitsHeader : (p : Argon2Params) → IsParams p → FitsHeader p
IsParams-FitsHeader p h = record {
  time_cost_fits = omega (arith, h.time.1);
  memory_cost_fits = omega (arith, h.memory.1);
  parallelism_fits = omega (arith, h.lanes.1);
  hash_len_fits = omega (arith, h.hash.1);
  version_fits = omega (arith, h.version);
}

-- The empty password has no buffer, and neither has one that cannot be encoded.
created_refused :
    (lib : Libraries) (token_bytes urandom : ℕ → Bytes) (now : ℤ) (m : Mnemonic) (password : Str)
    (params : Argon2Params) (hp : Bool)
    → secret_text password ≡ err Error.value_error
    → create lib token_bytes urandom now m (Argument.text password) params hp
      ≡ (err Error.value_error, none)
unfolding create with_secret
created_refused lib token_bytes urandom now m password params hp refused =
    elim (Bool-cases (length password == 0)) [
      | inl empty ↦ rw empty refl
      | inr full ↦ rw (full, refused) refl
    ]

password_full : (password : Str) (pw : SecretBytes) → secret_text password ≡ ok pw → password ≢ []
unfolding secret_text encode_utf8 new
password_full password pw made nil = absurd (no_secret (sym (ap secret_text nil) ∙ made))
  where
    no_secret : secret_text [] ≡ ok pw → ⊥
    no_secret h = cc

module _ (lib : Libraries) (token_bytes urandom : ℕ → Bytes) (now : ℤ) (m : Mnemonic)
    (seed : SecretBytes) (params : Argon2Params) (hp : Bool) (password : Str) (pw : SecretBytes)
    (read : entropy lib.unicode m ≡ ok seed) (made : secret_text password ≡ ok pw) where
  created_raises :
      (e : Error)
      → pack lib.argon2 lib.aes token_bytes urandom now seed pw params 1 hp none ≡ err e
      → create lib token_bytes urandom now m (Argument.text password) params hp ≡ (err e, some pw)
  unfolding create with_secret then_zeroize
  created_raises e raised =
      rw (not_empty password (password_full password pw made), made, read, raised) refl

  created_returns :
      (b : Bytes)
      → pack lib.argon2 lib.aes token_bytes urandom now seed pw params 1 hp none ≡ ok b
      → create lib token_bytes urandom now m (Argument.text password) params hp ≡ (
        ok (record { blob = b; params = params; has_passphrase = hp; created_at = pos 0 }),
        some (zeroize pw),
      )
  unfolding create with_secret then_zeroize
  created_returns b packed =
      rw (not_empty password (password_full password pw made), made, read, packed) refl

-- The ways in which a call of `create` ends that has the password in the buffer `pw`.
abbrev pub HoldingEnds :
    Argon2 → Argon2Params → Bytes → Bool → SecretBytes → Holding Keystore → Type 0
HoldingEnds argon2 params salt hp pw ending =
    ((params.hash_len ≢ 32) × (ending ≡ (err Error.value_error, some pw)))
    ⊎ ((params.hash_len ≡ 32)
        × (hash_of argon2 pw params salt ≡ err Error.foreign)
        × (ending ≡ (err Error.foreign, some pw)))
    ⊎ ((b : Bytes) × (params.hash_len ≡ 32)
        × (ending ≡ (
          ok (record { blob = b; params = params; has_passphrase = hp; created_at = pos 0 }),
          some (zeroize pw),
        )))

other_length : (n : ℕ) → (n == 32) ≡ false → n ≢ 32
other_length n h e = ground arith

only_foreign :
    (argon2 : Argon2) (pw : SecretBytes) (params : Argon2Params) (salt : Bytes) (e : Error)
    → IsSelfContained argon2
    → FitsHeader params
    → hash_of argon2 pw params salt ≡ err e
    → hash_of argon2 pw params salt ≡ err Error.foreign
only_foreign argon2 pw params salt e contained fits unhashed =
    unhashed
    ∙ ap err (
        Raises-err (λ d. d ≡ Error.foreign) (hash_of argon2 pw params salt)
          (contained.raises pw.buf salt params.time_cost params.memory_cost params.parallelism
            params.hash_len params.version fits.time_cost_fits fits.memory_cost_fits
            fits.parallelism_fits fits.hash_len_fits fits.version_fits)
          unhashed)

module _ (lib : Libraries) (sized : IsArgon2 lib.argon2) (contained : IsSelfContained lib.argon2)
    (is_aes : IsAesGcm lib.aes) (token_bytes urandom : ℕ → Bytes) (now : ℤ) (params : Argon2Params)
    (hp : Bool) (password : Str) (bounds : IsParams params) (now_fits : IsI64 now)
    (salted : length (token_bytes params.salt_len) ≡ params.salt_len)
    (nonced : length (urandom 12) ≡ 12) where
  holding_ends :
      (m : Mnemonic) (seed pw : SecretBytes)
      → entropy lib.unicode m ≡ ok seed
      → length seed.buf ≤ 255
      → secret_text password ≡ ok pw
      → HoldingEnds lib.argon2 params
          (token_bytes params.salt_len)
          hp
          pw
          (create lib token_bytes urandom now m (Argument.text password) params hp)
  holding_ends m seed pw read short made =
      let salt : Bytes = token_bytes params.salt_len in
      let fits : FitsHeader params = IsParams-FitsHeader params bounds in
      let raises =
        created_raises lib token_bytes urandom now m seed params hp password pw read made in
      let returns =
        created_returns lib token_bytes urandom now m seed params hp password pw read made in
      elim (Bool-cases (params.hash_len == 32)) [
        | inr differs ↦
            let other : params.hash_len ≢ 32 = other_length params.hash_len differs in
            inl (
              other,
              raises Error.value_error (
                  pack_hash_len lib.argon2 lib.aes token_bytes urandom now seed pw params hp none
                    short other),
            )
        | inl same ↦
            let size : params.hash_len ≡ 32 = (==_iff params.hash_len 32).0 same in
            elim (Result-cases (hash_of lib.argon2 pw params salt)) [
              | inr (e, unhashed) ↦
                  let foreign : hash_of lib.argon2 pw params salt ≡ err Error.foreign =
                    only_foreign lib.argon2 pw params salt e contained fits unhashed in
                  inr (
                    inl (
                      size,
                      foreign,
                      raises Error.foreign (
                          pack_unhashed lib.argon2 lib.aes token_bytes urandom now seed pw params hp
                            none short Error.foreign size salted foreign),
                    ))
              | inl (raw, hashed) ↦
                  let (b, packed) =
                    pack_returns lib.argon2 lib.aes is_aes token_bytes urandom now seed pw params hp
                      none raw salted nonced short size fits now_fits hashed
                      (sized.length-hash pw.buf salt params.time_cost params.memory_cost
                          params.parallelism params.hash_len params.version raw hashed
                        ∙ size) in
                  inr (inr (b, size, returns b packed))
            ]
      ]

  -- However `create` is called with a text and a mnemonic that `from_phrase` returned, it ends in one of
  -- four ways. Making a buffer of the password fails: `ValueError`, and there is no buffer. The
  -- parameters ask for a hash of another length than 32: `ValueError`, and the buffer still holds the
  -- password. Argon2 raises an exception of its own: that exception, and the buffer still holds the
  -- password. Else it returns a keystore of these parameters and this flag, with the time stamp 0, and
  -- the buffer holds zeros. This is for parameters in the bounds of public construction, a clock of 64
  -- bits, random sources that give as many bytes as they are asked for, an Argon2 that raises its own
  -- exceptions only and whose hashes have the length that is asked for, and a cipher that does what it
  -- documents.
  pub create_outcomes :
      (phrase : Str) (m : Mnemonic)
      → from_phrase lib.hashes lib.unicode phrase ≡ ok m
      → ((secret_text password ≡ err Error.value_error)
          × (create lib token_bytes urandom now m (Argument.text password) params hp
              ≡ (err Error.value_error, none)))
        ⊎ ((pw : SecretBytes) × (secret_text password ≡ ok pw)
            × HoldingEnds lib.argon2 params
                (token_bytes params.salt_len)
                hp
                pw
                (create lib token_bytes urandom now m (Argument.text password) params hp))
  create_outcomes phrase m accepted = elim (Result-cases (secret_text password)) [
    | inr (e, refused) ↦
        let value_refused : secret_text password ≡ err Error.value_error =
          secret_text_refused password e refused in
        inl (
          value_refused,
          created_refused lib token_bytes urandom now m password params hp value_refused,
        )
    | inl (pw, made) ↦
        let spelt : SpellsEntropy lib.hashes lib.unicode m =
          (from_phrase-SpellsEntropy lib.hashes lib.unicode phrase m accepted).1 in
        inr (
          pw,
          made,
          holding_ends m spelt.secret pw spelt.read (omega (arith, spelt.size, spelt.k_range.1))
              made,
        )
  ]
