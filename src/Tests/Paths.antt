-- ===== src/Tests/Paths.antt =====
-- Runs of `derivation.py`.
use keystone_crypto.Prelude.{
  take, ◌^◌, ◌+◌, ◌≡◌, refl, [], ◌∷◌, ◌++◌, true, false, replicate, inl, inr, All, arith,
}
use keystone_crypto.Digits.{num_digits, digits, value}
use keystone_crypto.Errors.{ok}
use keystone_crypto.Bytes.{Bytes, pos, to_bytes, pack_u32}
use keystone_crypto.Text.{codes, decimal}
use keystone_crypto.SecretBytes.{new}
use keystone_crypto.Base58.{b58encode}
use keystone_crypto.Base58.Injective.{b58encode_eq_iff}
use mathlib.Core.Logic.{◌↔◌}
use keystone_crypto.Derivation.{
  ExtendedPrivateKey, derive, derive_index, effective_index, child_data, fingerprint, parse,
}
use keystone_crypto.Derivation.{to_base58, version_of}
use keystone_crypto.Derivation.Ckd.{ckd_priv_at, or_value_error, derive-ckd_priv_at}
use keystone_crypto.Derivation.Exported.{to_base58-derive}
use keystone_crypto.Base58.{digit_loop}
use keystone_crypto.Base58.Decode.{b58decode, b58decode-b58encode}
use keystone_crypto.Base58.Rounds.{b58encode_returns}
use keystone_crypto.Text.{Str}
use keystone_crypto.Bytes.{equal}
use keystone_crypto.Bytes.{Bytes, from_bytes}
use keystone_crypto.Prelude.{◌⊎◌, inr}
use keystone_crypto.Prelude.{some}
use keystone_crypto.Derivation.Serialized.{IsSerialized}
use keystone_crypto.Derivation.Parse.{IsIndex, parse-IsIndex}
use keystone_crypto.Derivation.Parse.Path.{parse-path_text}
use keystone_crypto.Tests.Libraries.{
  toy_hashes, toy_hashes-IsHashes, toy_curve, toy_unicode, toy_unicode-IsUnicode,
}

abbrev parent : ExtendedPrivateKey
parent = record {
  secret_key = record { buf = replicate 31 0 ++ 5 ∷ [] };
  chain_code = record { buf = replicate 32 1 };
  depth = 0;
  parent_fingerprint = replicate 4 0;
  child_number = 0;
}

abbrev child : ExtendedPrivateKey
child = record {
  secret_key = record {
    buf =
        41 ∷ 41 ∷ 41 ∷ 41 ∷ 41 ∷ 41 ∷ 41 ∷ 41 ∷ 41 ∷ 41 ∷ 41 ∷ 41 ∷ 41 ∷ 41 ∷ 41 ∷ 41 ∷ 41 ∷ 41 ∷ 41
        ∷ 41 ∷ 41 ∷ 41 ∷ 41 ∷ 41 ∷ 41 ∷ 41 ∷ 43 ∷ 205 ∷ 169 ∷ 41 ∷ 62 ∷ 82 ∷ [];
  };
  chain_code = record {
    buf =
        41 ∷ 41 ∷ 41 ∷ 41 ∷ 41 ∷ 41 ∷ 41 ∷ 41 ∷ 41 ∷ 41 ∷ 41 ∷ 41 ∷ 41 ∷ 41 ∷ 41 ∷ 41 ∷ 41 ∷ 41 ∷ 41
        ∷ 41 ∷ 41 ∷ 41 ∷ 41 ∷ 41 ∷ 41 ∷ 41 ∷ 43 ∷ 205 ∷ 169 ∷ 41 ∷ 62 ∷ 89 ∷ [];
  };
  depth = 1;
  parent_fingerprint = replicate 4 0;
  child_number = 44 + 2 ^ 31;
}

made : derive toy_hashes toy_curve parent (pos 44) true ≡ ok child
unfolding derive derive_index effective_index child_data fingerprint pack_u32 to_bytes digits value
    new
made = refl

parsed :
    parse toy_unicode (codes "m/44h/0")
    ≡ ok (record { indices = (pos 44, true) ∷ (pos 0, false) ∷ [] })
unfolding decimal digits num_digits
parsed =
    parse-path_text toy_unicode toy_unicode-IsUnicode b'h' (inr refl) ((44, true) ∷ (0, false) ∷ [])
      (omega arith, (omega arith, tt))

parse-path_text_example :
    parse toy_unicode (codes "m/44'/0")
    ≡ ok (record { indices = (pos 44, true) ∷ (pos 0, false) ∷ [] })
unfolding decimal digits num_digits
parse-path_text_example =
    parse-path_text toy_unicode toy_unicode-IsUnicode b'\'' (inl refl)
      ((44, true) ∷ (0, false) ∷ []) (omega arith, (omega arith, tt))

parse-IsIndex_example : All IsIndex ((pos 44, true) ∷ (pos 0, false) ∷ [])
parse-IsIndex_example =
    parse-IsIndex toy_unicode (codes "m/44h/0")
      (record { indices = (pos 44, true) ∷ (pos 0, false) ∷ [] }) parsed

b58decode-b58encode_example :
    (text : Str) × (b58encode (0 ∷ 57 ∷ 200 ∷ []) ≡ ok text)
    × (b58decode text ≡ some (0 ∷ 57 ∷ 200 ∷ []))
unfolding value
b58decode-b58encode_example =
    b58decode-b58encode (0 ∷ 57 ∷ 200 ∷ []) (omega arith, (omega arith, (omega arith, tt)))
      (omega arith)

b58encode_returns_example :
    (text : Str) × (b58encode (0 ∷ 57 ∷ 200 ∷ []) ≡ ok text)
    × (digit_loop 3 14792 [] ≡ digit_loop 14792 14792 [])
unfolding value
b58encode_returns_example = b58encode_returns (0 ∷ 57 ∷ 200 ∷ []) 3 [] (omega arith)

b58encode_eq_iff_example : (b58encode (0 ∷ 0 ∷ 0 ∷ []) ≡ b58encode []) ↔ (
    (◌≡◌ {A = Bytes} (0 ∷ 0 ∷ 0 ∷ []) [])
    ⊎ ((from_bytes (0 ∷ 0 ∷ 0 ∷ []) ≡ 0) × (from_bytes [] ≡ 0)))
b58encode_eq_iff_example =
    b58encode_eq_iff (0 ∷ 0 ∷ 0 ∷ []) [] (omega arith, (omega arith, (omega arith, tt))) tt

zeros_collide : b58encode (0 ∷ 0 ∷ 0 ∷ []) ≡ b58encode []
unfolding value
zeros_collide = b58encode_eq_iff_example.1 (inr (refl, refl))

mainnet : version_of (codes "mainnet") ≡ ok (4 ∷ 136 ∷ 173 ∷ 228 ∷ [])
unfolding version_of equal
mainnet = refl

to_base58-derive_example :
    (raw : Bytes) × (text : Str) × (to_base58 toy_hashes toy_curve child (codes "mainnet")
      ≡ ok text)
    × (b58decode text ≡ some (raw ++ take 4 (toy_hashes.sha256 (toy_hashes.sha256 raw))))
    × IsSerialized raw (4 ∷ 136 ∷ 173 ∷ 228 ∷ []) child
to_base58-derive_example =
    to_base58-derive toy_hashes toy_curve toy_hashes-IsHashes parent child (pos 44) true
      (codes "mainnet") (4 ∷ 136 ∷ 173 ∷ 228 ∷ []) made (omega arith) mainnet

derive-ckd_priv_at_example :
    derive toy_hashes toy_curve parent (pos 7) false
    ≡ or_value_error (ckd_priv_at toy_hashes toy_curve parent parent.secret_key.buf (pos 7) false)
derive-ckd_priv_at_example =
    derive-ckd_priv_at toy_hashes toy_curve toy_hashes-IsHashes parent parent.secret_key.buf (pos 7)
      false refl
