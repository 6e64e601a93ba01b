-- ===== src/Tests/Libraries.antt =====
-- Small libraries that do what the laws ask for, to run the code with.
use keystone_crypto.Prelude.{
  [], ◌∷◌, map, suc, ◌%◌, ℕ, ◌+◌, ◌-◌, ◌*◌, ◌^◌, ◌≡◌, ◌≢◌, refl, sym, ap, ◌∙◌, ◌∷◌, ◌++◌, Bool,
  ◌&&◌, ◌||◌, none, some, length, take, drop, replicate, length-append, length-take,
  length-replicate, take-append, drop-append, leb, ◌==◌, if◌then◌else◌, arith,
}
use keystone_crypto.Digits.{digits, length-digits, digits-AreDigits}
use keystone_crypto.Errors.{Error, Result, ok, err, ok-injective}
use keystone_crypto.Bytes.{AreBytes, Bytes, from_bytes, equal, equal_refl}
use keystone_crypto.Unicode.{Unicode, IsUnicode}
use keystone_crypto.Hashes.{Hashes, IsHashes}
use keystone_crypto.Kdf.{Argon2, IsArgon2, IsSelfContained}
use keystone_crypto.Aead.{AesGcm, IsAesGcm}
use keystone_crypto.Signing.{Secp256k1, Ed25519, rs_to_der}
use keystone_crypto.Signing.StrictDer.{StrictDer, der_integer, rs_to_der-der_sequence}
use keystone_crypto.Signing.Signs.{SignsDigests}
use keystone_crypto.Signing.Der.{der_to_rs-rs_to_der}
use keystone_crypto.Signing.Verify.{IsSecp256k1, IsEd25519}
use keystone_crypto.Keystore.{Libraries}

-- The data, and half of the key as its tag.
abbrev pub toy_aes : AesGcm
toy_aes = record {
  encrypt = λ key nonce plain aad. ok (plain ++ take 16 key);
  decrypt = λ key nonce ct aad.
      if equal (drop (length ct - 16) ct) (take 16 key)
      then some (take (length ct - 16) ct)
      else none;
}

toy_decrypt :
    (key nonce plain aad : Bytes)
    → length key ≡ 32
    → toy_aes.decrypt key nonce (plain ++ take 16 key) aad ≡ some plain
toy_decrypt key nonce plain aad h =
    let cut : length (plain ++ take 16 key) - 16 ≡ length plain =
      omega (arith, length-append plain (take 16 key), length-take 16 key) in
    rw
      (
        cut,
        drop-append (length plain) plain (take 16 key) refl,
        take-append (length plain) plain (take 16 key) refl,
        equal_refl (take 16 key),
      )
      refl

pub toy_aes-IsAesGcm : IsAesGcm toy_aes
toy_aes-IsAesGcm = record {
  encrypts = λ key nonce plain aad hk hn hp ha. (
    plain ++ take 16 key,
    refl,
    omega (arith, length-append plain (take 16 key), length-take 16 key),
    toy_decrypt key nonce plain aad hk,
  );
}

abbrev pub toy_argon2 : Argon2
toy_argon2 = record {
  hash_secret_raw = λ secret salt t m p h v. ok (take h (secret ++ (salt ++ replicate h t)));
}

pub toy_argon2-IsArgon2 : IsArgon2 toy_argon2
toy_argon2-IsArgon2 = record {
  length-hash = λ secret salt t m p h v raw e.
      ap length (sym (ok-injective e))
      ∙ length-take h _
      ∙ omega (
        arith,
        length-append secret (salt ++ replicate h t),
        length-append salt (replicate h t),
        length-replicate h t,
      );
}

pub toy_argon2-IsSelfContained : IsSelfContained toy_argon2
toy_argon2-IsSelfContained = record { raises = λ secret salt t m p h v _ _ _ _ _. tt }

abbrev digest : ℕ → ℕ → Bytes
digest w n = digits 256 w (n * 41 + 12)

abbrev pub toy_hashes : Hashes
toy_hashes = record {
  sha256 = λ m. digest 32 (from_bytes m);
  hmac_sha512 = λ k m. digest 64 ((from_bytes k + 3 * from_bytes m) * (256 ^ 32 + 1));
  ripemd160 = λ m. digest 20 (from_bytes m);
  pbkdf2_sha512 = λ p s rounds n. digest n (from_bytes p + from_bytes s + rounds);
}

pub toy_hashes-IsHashes : IsHashes toy_hashes
toy_hashes-IsHashes = record {
  length-sha256 = λ m. length-digits 256 32 _;
  sha256-AreBytes = λ m. digits-AreDigits 256 32 _ (omega arith);
  length-hmac_sha512 = λ k m. length-digits 256 64 _;
  hmac_sha512-AreBytes = λ k m. digits-AreDigits 256 64 _ (omega arith);
  length-ripemd160 = λ m. length-digits 256 20 _;
  ripemd160-AreBytes = λ m. digits-AreDigits 256 20 _ (omega arith);
  length-pbkdf2 = λ p s rounds n. length-digits 256 n _;
}

-- ASCII, with the space as the only white space.
abbrev pub toy_unicode : Unicode
toy_unicode = record {
  is_space = λ c. c == 32;
  is_digit = λ c. (leb b'0' c && leb c b'9') || c == 178;
  decimal_value = λ c. if leb b'0' c && leb c b'9' then some (c - 48) else none;
  nfkd = λ s. s;
}

pub toy_unicode-IsUnicode : IsUnicode toy_unicode
toy_unicode-IsUnicode = record {
  space_is_space = refl;
  graphic_not_space = λ c lo hi. ground arith;
  digit_value = λ d h. ground arith;
  ascii_digit = λ c h. ground arith;
  nfkd_ascii = λ s h. refl;
}

-- 32 bytes of a list of numbers.
abbrev byte_of : ℕ → ℕ
byte_of d = d % 256

abbrev pub fit : Bytes → Bytes
fit b = map byte_of (take 32 (b ++ replicate 32 0))

length-map : (b : Bytes) → length (map byte_of b) ≡ length b
length-map [] = refl
length-map (x ∷ b) = ap suc (length-map b)

map-AreBytes : (b : Bytes) → AreBytes (map byte_of b)
map-AreBytes [] = tt
map-AreBytes (x ∷ b) = (omega arith, map-AreBytes b)

length-fit : (b : Bytes) → length (fit b) ≡ 32
length-fit b =
    length-map (take 32 (b ++ replicate 32 0))
    ∙ length-take 32 (b ++ replicate 32 0)
    ∙ omega (arith, length-append b (replicate 32 0))

rs_to_der-strict : (a b der : Bytes) → rs_to_der (fit a) (fit b) ≡ ok der → StrictDer der
rs_to_der-strict a b der e =
    let a_bytes : AreBytes (fit a) = map-AreBytes (take 32 (a ++ replicate 32 0)) in
    let b_bytes : AreBytes (fit b) = map-AreBytes (take 32 (b ++ replicate 32 0)) in
    let (r_body, r_integer) = der_integer (fit a) (length-fit a) a_bytes in
    let (s_body, s_integer) = der_integer (fit b) (length-fit b) b_bytes in
    record {
      r = fit a;
      s = fit b;
      length-r = length-fit a;
      length-s = length-fit b;
      r_bytes = a_bytes;
      s_bytes = b_bytes;
      r_body = r_body;
      s_body = s_body;
      r_integer = r_integer;
      s_integer = s_integer;
      whole = ok-injective (
          sym e
          ∙ rs_to_der-der_sequence (fit a) (fit b) r_body s_body (length-fit a) (length-fit b)
              a_bytes b_bytes r_integer s_integer);
    }

abbrev matches : Result Bytes → Bytes → Result Bool
matches (ok d) der = ok (equal d der)
matches (err e) der = err e

-- A signature is the key and the digest.
abbrev pub toy_curve : Secp256k1
toy_curve = record {
  private_key = λ raw. ok raw;
  public_key = λ sk. 2 ∷ sk;
  sign = λ sk digest. rs_to_der (fit sk) (fit digest);
  sign_schnorr = λ sk digest aux. ok (1 ∷ replicate 63 0);
  verify = λ pk der digest. matches (rs_to_der (fit (drop 1 pk)) (fit digest)) der;
}

pub toy_curve-IsSecp256k1 : IsSecp256k1 toy_curve
toy_curve-IsSecp256k1 = record {
  strict_der = λ sk digest der e. rs_to_der-strict sk digest der e;
  verifies = λ sk digest der e. rw e (ap ok (equal_refl der));
  schnorr_shape =
      λ sk digest aux sig e. (ap length (sym (ok-injective e)), not_zero sig (ok-injective e));
}
  where
    not_zero : (sig : Bytes) → 1 ∷ replicate 63 0 ≡ sig → sig ≢ replicate 64 0
    not_zero sig e z = cc

pub toy_curve-SignsDigests : SignsDigests toy_curve
toy_curve-SignsDigests = record {
  signs = λ raw sk digest made long.
      let (der, written, _, _) =
        der_to_rs-rs_to_der (fit sk) (fit digest) (length-fit sk) (length-fit digest) in
      (der, written);
  signs_schnorr = λ raw sk digest aux made long. (1 ∷ replicate 63 0, refl);
}

abbrev pub toy_ed : Ed25519
toy_ed = record {
  private_key = λ raw. ok raw;
  public_key = λ sk. sk;
  sign = λ sk message. sk ++ message;
  verify = λ pk sig message. if equal sig (pk ++ message) then ok tt else err Error.foreign;
}

pub toy_ed-IsEd25519 : IsEd25519 toy_ed
toy_ed-IsEd25519 = record { verifies = λ sk message. rw (equal_refl (sk ++ message)) refl }

abbrev pub toy_libraries : Libraries
toy_libraries = record {
  hashes = toy_hashes;
  curve = toy_curve;
  ed = toy_ed;
  argon2 = toy_argon2;
  aes = toy_aes;
  unicode = toy_unicode;
}
