-- ===== src/Tests/Signatures.antt =====
-- Runs of `signing.py`.
use keystone_crypto.Prelude.{
  arith, inr, ◌≤◌, ◌≡◌, refl, [], ◌∷◌, ◌++◌, true, length, replicate, none,
}
use keystone_crypto.Digits.{digits, value}
use keystone_crypto.Errors.{ok}
use keystone_crypto.Bytes.{Bytes, byte, index}
use keystone_crypto.Text.{codes}
use keystone_crypto.Signing.{
  Signature, Signer, ecdsa, sign, verify, der_to_rs, rs_to_der, rjust, drop_sign, strip_zeros,
  add_sign, encode_int, public_key_bytes,
}
use keystone_crypto.Signing.Der.{der_to_rs-rs_to_der}
use keystone_crypto.Signing.StrictDer.{StrictDer, rs_to_der-der_to_rs}
use keystone_crypto.Signing.Signs.{sign_returns}
use keystone_crypto.Tests.Setting.{noise}
use keystone_crypto.Tests.Libraries.{
  toy_hashes, toy_hashes-IsHashes, toy_curve, toy_curve-IsSecp256k1, toy_curve-SignsDigests, toy_ed,
  toy_ed-IsEd25519,
}

abbrev key : Bytes
key = 200 ∷ replicate 31 5

abbrev signature : Signature
signature = record {
  scheme = ecdsa;
  raw = key ++ (replicate 29 0 ++ 16 ∷ 184 ∷ 221 ∷ []);
  public_key = 2 ∷ key;
}

signed :
    sign toy_hashes toy_curve toy_ed (Signer.secp256k_signer key) (codes "hi") noise ≡ ok signature
unfolding sign public_key_bytes der_to_rs rs_to_der rjust drop_sign strip_zeros add_sign encode_int
    index byte digits value
signed = refl

sign_returns_example :
    (sig : Signature) × (sign toy_hashes toy_curve toy_ed
        (Signer.secp256k_signer key)
        (codes "hi")
        noise
      ≡ ok sig)
    × (verify toy_hashes toy_curve toy_ed sig (codes "hi") none ≡ ok true)
sign_returns_example =
    sign_returns toy_hashes toy_curve toy_ed toy_hashes-IsHashes toy_curve-IsSecp256k1
      toy_curve-SignsDigests toy_ed-IsEd25519 (Signer.secp256k_signer key) (codes "hi") noise
      (key, refl)

-- A first byte of 128 or more, and leading zeros.
der_to_rs-rs_to_der_example :
    (der : Bytes) × (rs_to_der key (replicate 31 0 ++ 1 ∷ []) ≡ ok der)
    × (der_to_rs der ≡ ok (key, replicate 31 0 ++ 1 ∷ []))
    × (length der ≤ 72)
der_to_rs-rs_to_der_example = der_to_rs-rs_to_der key (replicate 31 0 ++ 1 ∷ []) refl refl

-- The numbers 128 and 1.
abbrev der_128 : Bytes
der_128 = 0x30 ∷ 7 ∷ 0x02 ∷ 2 ∷ 0 ∷ 128 ∷ 0x02 ∷ 1 ∷ 1 ∷ []

der_128-StrictDer : StrictDer der_128
unfolding value
der_128-StrictDer = record {
  r = replicate 31 0 ++ 128 ∷ [];
  s = replicate 31 0 ++ 1 ∷ [];
  length-r = refl;
  length-s = refl;
  r_bytes = ground arith;
  s_bytes = ground arith;
  r_body = 0 ∷ 128 ∷ [];
  s_body = 1 ∷ [];
  r_integer = record {
    minimal = (omega arith, inr (omega arith));
    are_bytes = ground arith;
    same = refl;
  };
  s_integer = record { minimal = omega arith; are_bytes = ground arith; same = refl };
  whole = refl;
}

rs_to_der-der_to_rs_example :
    (der_to_rs der_128 ≡ ok (der_128-StrictDer.r, der_128-StrictDer.s))
    × (rs_to_der der_128-StrictDer.r der_128-StrictDer.s ≡ ok der_128)
rs_to_der-der_to_rs_example = rs_to_der-der_to_rs der_128 der_128-StrictDer
