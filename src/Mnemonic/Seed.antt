-- ===== src/Mnemonic/Seed.antt =====
-- `Mnemonic.seed` (src/keystonecrypto/mnemonic.py) on ASCII.
use keystone_crypto.Prelude.{
  ℕ, ◌<◌, ◌≡◌, refl, ap, [], ◌∷◌, ◌++◌, length, lt→ltb, All-append, arith,
}
use keystone_crypto.Errors.{ok, if_true}
use keystone_crypto.Bytes.{Bytes}
use keystone_crypto.Text.{Str, codes}
use keystone_crypto.Unicode.{Unicode, IsUnicode, IsAscii, utf8_char, encode_utf8}
use keystone_crypto.Hashes.{Hashes, IsHashes}
use keystone_crypto.SecretBytes.{SecretBytes}
use keystone_crypto.Envelope.Plaintext.{new_of_ne-nil}
use keystone_crypto.Mnemonic.{Mnemonic, seed}

utf8_ascii : (c : ℕ) → c < 128 → utf8_char c ≡ ok (c ∷ [])
unfolding utf8_char
utf8_ascii c h = if_true _ _ (lt→ltb c 128 h)

-- ASCII text is its own encoding.
encode_utf8_ascii : (s : Str) → IsAscii s → encode_utf8 s ≡ ok s
unfolding encode_utf8
encode_utf8_ascii [] h = refl
encode_utf8_ascii (c ∷ s) (h, hs) = rw (utf8_ascii c h, encode_utf8_ascii s hs) refl

salt_prefix : IsAscii (codes "mnemonic")
salt_prefix = ground arith

-- For a phrase and a passphrase in ASCII, the seed is that of BIP-39: 64 bytes of PBKDF2-HMAC-SHA512
-- in 2048 rounds, with the phrase for the password and the passphrase behind "mnemonic" for the salt. The hash and
-- the Unicode tables follow their standards.
pub seed_ascii :
    (h : Hashes)
    → IsHashes h
    → (u : Unicode) → IsUnicode u
    → (m : Mnemonic) (passphrase : Str) → IsAscii m.phrase
    → IsAscii passphrase
    → (s : SecretBytes) × (seed u h m passphrase ≡ ok s)
      × (s.buf ≡ h.pbkdf2_sha512 m.phrase (codes "mnemonic" ++ passphrase) 2048 64)
      × (length s.buf ≡ 64)
unfolding seed
seed_ascii h h_laws u u_laws m passphrase phrase_ascii passphrase-IsAscii =
    let salt : Str = codes "mnemonic" ++ passphrase in
    let salt_ascii : IsAscii salt =
      All-append (λ c. c < 128) (codes "mnemonic") passphrase salt_prefix passphrase-IsAscii in
    let raw : Bytes = h.pbkdf2_sha512 m.phrase salt 2048 64 in
    let long : length raw ≡ 64 = h_laws.length-pbkdf2 m.phrase salt 2048 64 in
    (
      record { buf = raw },
      rw (
        u_laws.nfkd_ascii m.phrase phrase_ascii,
        u_laws.nfkd_ascii salt salt_ascii,
        encode_utf8_ascii m.phrase phrase_ascii,
        encode_utf8_ascii salt salt_ascii,
        new_of_ne-nil raw (λ nil. absurd (omega (arith, ap length nil, long))),
      ),
      refl,
      long,
    )
