-- ===== src/Envelope/Rejects.antt =====
-- The checks of `Envelope.unpack` (src/keystonecrypto/envelope.py).
use keystone_crypto.Prelude.{
  ℕ, ◌≤◌, ◌≡◌, refl, sym, ap, ◌∙◌, [], ◌∷◌, false, not, length, slice, drop, none, some, Option,
  ltb, ◌==◌, ==_iff, arith,
}
use mathlib.Core.Path.{ap₂}
use keystone_crypto.Errors.{ok, ok-injective, ◌>>=◌, >>=-eq-ok, unless-eq-ok, require-eq-ok}
use keystone_crypto.Bytes.{Bytes, byte, index, equal, equal→eq}
use keystone_crypto.SecretBytes.{SecretBytes, new}
use keystone_crypto.Kdf.{Argon2, Argon2Params, derive_key, hash_with}
use keystone_crypto.Aead.{AesGcm, decrypt, as_key, or_decryption_error}
use keystone_crypto.Envelope.{
  UnpackedKeystore, magic, aad, unpack, unpack_kdf_params, unpack_plaintext,
}
use keystone_crypto.Envelope.RoundTrip.{hash_of}

opened_of : (o : Option Bytes) (p : Bytes) → or_decryption_error o ≡ ok p → o ≡ some p
unfolding or_decryption_error
opened_of none p h = cc
opened_of (some q) p h = ap some (ok-injective h)

-- A ciphertext that decrypts was opened by the cipher, under a key of 32 bytes.
pub decrypt_opened :
    (aes : AesGcm) (key : SecretBytes) (nonce ct context plain : Bytes)
    → decrypt aes key nonce ct context ≡ ok plain
    → (length key.buf ≡ 32) × (aes.decrypt key.buf nonce ct context ≡ some plain)
unfolding decrypt as_key
decrypt_opened aes key nonce ct context plain e =
    let (_, e1) =
      unless-eq-ok (not (length nonce == 12))
        (as_key key >>= λ raw. or_decryption_error (aes.decrypt raw nonce ct context)) _ e in
    let (raw, is_key, e2) =
      >>=-eq-ok (as_key key) (λ raw. or_decryption_error (aes.decrypt raw nonce ct context)) e1 in
    let (size, same) = unless-eq-ok (not (length key.buf == 32)) _ _ is_key in
    let raw_is : key.buf ≡ raw = ok-injective same in
    (long key size, rw raw_is (opened_of (aes.decrypt raw nonce ct context) plain e2))
  where
    long : (k : SecretBytes) → not (length k.buf == 32) ≡ false → length k.buf ≡ 32
    long k h = ground arith

-- The key that `derive_key` returns is what the hash returned.
pub derived_key :
    (argon2 : Argon2) (tb : ℕ → Bytes) (password : SecretBytes) (p : Argon2Params) (salt : Bytes)
    (r : SecretBytes × Bytes)
    → derive_key argon2 tb password p (some salt) ≡ ok r
    → hash_of argon2 password p salt ≡ ok r.0.buf
unfolding derive_key hash_with new
derived_key argon2 tb password p salt r e =
    let (_, e1) =
      unless-eq-ok (not (length salt == p.salt_len)) (hash_with argon2 password p salt) _ e in
    let (raw, hashed, e2) = >>=-eq-ok (hash_of argon2 password p salt) _ e1 in
    let (key, made, last) = >>=-eq-ok (new raw) _ e2 in
    let (_, wrapped) = unless-eq-ok (length raw == 0) _ _ made in
    let same : raw ≡ key.buf = ap (λ (s : SecretBytes). s.buf) (ok-injective wrapped) in
    let pair : (key, salt) ≡ r = ok-injective last in
    hashed ∙ ap ok (same ∙ ap (λ (q : SecretBytes × Bytes). q.0.buf) pair)

aad_one : aad 1 1 ≡ ok (1 ∷ 1 ∷ [])
unfolding aad byte
aad_one = refl

-- What a blob must be for `unpack` to return: long enough, with the magic, version 1 and KDF 1, and
-- with a ciphertext that the cipher opens, with version and KDF as associated data, under the hash of
-- the password with the parameters and the salt of the header, a hash of 32 bytes.
pub record Opened (argon2 : Argon2) (aes : AesGcm) (blob : Bytes) (password : SecretBytes)
    (u : UnpackedKeystore) : Type 0 where
  pub long : 82 ≤ length blob
  pub marked : slice 0 4 blob ≡ magic
  pub version_one : index blob 4 ≡ ok 1
  pub kdf_one : index blob 5 ≡ ok 1
  pub params : Argon2Params
  pub params_read : unpack_kdf_params (slice 6 38 blob) ≡ ok params
  pub key : Bytes
  pub key_hashed : hash_of argon2 password params (slice 38 54 blob) ≡ ok key
  pub length-key : length key ≡ 32
  pub plain : Bytes
  pub deciphered : aes.decrypt key (slice 54 66 blob) (drop 66 blob) (1 ∷ 1 ∷ []) ≡ some plain
  pub contents : unpack_plaintext plain ≡ ok u

-- If `unpack` returns, the blob has 82 bytes or more, the magic, version 1 and KDF 1, the hash of the
-- password under the parameters and the salt of its header has 32 bytes, the cipher opens the
-- ciphertext under that key with the version and the KDF as associated data, and what is returned is
-- read from the plaintext.
pub unpack-Opened :
    (argon2 : Argon2) (aes : AesGcm) (blob : Bytes) (password : SecretBytes) (u : UnpackedKeystore)
    → unpack argon2 aes blob password ≡ ok u
    → Opened argon2 aes blob password u
unfolding unpack
unpack-Opened argon2 aes blob password u e =
    let (long, e1) = unless-eq-ok (ltb (length blob) 82) _ _ e in
    let (marked, e2) = require-eq-ok (equal (slice 0 4 blob) magic) _ _ e1 in
    let (v, at4, e3) = >>=-eq-ok (index blob 4) _ e2 in
    let (v_one, e4) = require-eq-ok (v == 1) _ _ e3 in
    let (k, at5, e5) = >>=-eq-ok (index blob 5) _ e4 in
    let (params, params_read, e6) = >>=-eq-ok (unpack_kdf_params (slice 6 38 blob)) _ e5 in
    let (derived, hashed, e7) =
      >>=-eq-ok (derive_key argon2 (λ n. []) password params (some (slice 38 54 blob))) _ e6 in
    let (context, context_made, e8) = >>=-eq-ok (aad v k) _ e7 in
    let (plain, opened, e9) =
      >>=-eq-ok (decrypt aes derived.0 (slice 54 66 blob) (drop 66 blob) context) _ e8 in
    let (k_one, contents) = require-eq-ok (k == 1) _ _ e9 in
    let v_is : v ≡ 1 = (==_iff v 1).0 v_one in
    let k_is : k ≡ 1 = (==_iff k 1).0 k_one in
    let context_is : 1 ∷ 1 ∷ [] ≡ context =
      ok-injective (sym aad_one ∙ sym (ap₂ aad v_is k_is) ∙ context_made) in
    let (size, deciphered) =
      decrypt_opened aes derived.0 (slice 54 66 blob) (drop 66 blob) context plain opened in
    record {
      long = enough (length blob) long;
      marked = equal→eq (slice 0 4 blob) magic marked;
      version_one = at4 ∙ ap ok v_is;
      kdf_one = at5 ∙ ap ok k_is;
      params = params;
      params_read = params_read;
      key = derived.0.buf;
      key_hashed = derived_key argon2 (λ n. []) password params (slice 38 54 blob) derived hashed;
      length-key = size;
      plain = plain;
      deciphered = rw context_is deciphered;
      contents = contents;
    }
  where
    enough : (n : ℕ) → ltb n 82 ≡ false → 82 ≤ n
    enough n h = ground arith
