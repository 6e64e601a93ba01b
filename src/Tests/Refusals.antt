-- ===== src/Tests/Refusals.antt =====
-- Runs that are refused, and the fresh phrase.
use keystone_crypto.Prelude.{
  ◌<◌, ◌≡◌, ◌⊎◌, inl, inr, refl, [], ◌∷◌, ◌++◌, length, length-replicate, replicate, All-replicate,
  none, slice, drop, arith,
}
use keystone_crypto.Digits.{value}
use keystone_crypto.Errors.{Error, ok, err}
use keystone_crypto.Bytes.{Bytes, AreBytes, pos, index, equal}
use keystone_crypto.Text.{codes}
use keystone_crypto.Mnemonic.{valid_count}
use keystone_crypto.Mnemonic.Raised.{from_phrase_raises}
use keystone_crypto.Unicode.{split, split_from, strip, lstrip}
use keystone_crypto.Envelope.{magic, unpack}
use keystone_crypto.Envelope.Failures.{unpack_refused, header_params}
use mathlib.Core.Logic.{◌↔◌}
use keystone_crypto.Envelope.Raised.{IsForeign}
use keystone_crypto.Envelope.Foreign.{unpack_version_iff}
use keystone_crypto.Envelope.RoundTrip.{hash_of}
use keystone_crypto.Mnemonic.{Mnemonic, generate, from_phrase, entropy}
use keystone_crypto.Mnemonic.Generated.{from_phrase-generate}
use keystone_crypto.Derivation.{
  parse, parse_part, split_at, is_hardened, rstrip_marks, is_digits, int_of_str, read_digits,
}
use keystone_crypto.Derivation.Parse.Raised.{AnyRefused, parse_raises}
use keystone_crypto.Mnemonic.{traverse}
use keystone_crypto.Derivation.Parse.Path.{parse_part_marks}
use keystone_crypto.Tests.Libraries.{
  toy_argon2, toy_argon2-IsSelfContained, toy_aes, toy_hashes, toy_hashes-IsHashes, toy_unicode,
  toy_unicode-IsUnicode,
}
use keystone_crypto.Tests.Setting.{sevens, nines, pw, key_for}

-- Version 2, and nothing more.
abbrev later_blob : Bytes
later_blob = magic ++ 2 ∷ replicate 77 0

at_four : index later_blob 4 ≡ ok 2
unfolding index
at_four = refl

later_blob-AreBytes : AreBytes later_blob
later_blob-AreBytes = ground arith

unpack_version_iff_example :
    (unpack toy_argon2 toy_aes later_blob pw ≡ err Error.keystore_version)
    ↔ IsForeign toy_argon2 toy_aes later_blob pw
unpack_version_iff_example =
    unpack_version_iff toy_argon2 toy_aes later_blob pw toy_argon2-IsSelfContained
      later_blob-AreBytes

later_blob_refused : unpack toy_argon2 toy_aes later_blob pw ≡ err Error.keystore_version
later_blob_refused =
    unpack_version_iff_example.1
      (omega arith, inr (inl (refl, (2, at_four, λ e. absurd (omega (arith, e))))))

-- A keystore whose tag is all zero.
abbrev tampered_blob : Bytes
tampered_blob =
    magic
    ++ 1 ∷ 1 ∷ 0 ∷ 0 ∷ 0 ∷ 3 ∷ 0 ∷ 4 ∷ 0 ∷ 0 ∷ 0 ∷ 0 ∷ 0 ∷ 4 ∷ 0 ∷ 0 ∷ 0 ∷ 32 ∷ 0 ∷ 0 ∷ 0 ∷ 19 ∷ []
    ++ replicate 12 0
    ++ sevens 16
    ++ nines 12
    ++ 3 ∷ 1 ∷ 2 ∷ 3 ∷ replicate 31 0

tampered_four : index tampered_blob 4 ≡ ok 1
unfolding index
tampered_four = refl

tampered_five : index tampered_blob 5 ≡ ok 1
unfolding index
tampered_five = refl

tampered_key :
    hash_of toy_argon2 pw (header_params tampered_blob) (slice 38 54 tampered_blob)
    ≡ ok (key_for 16)
unfolding value
tampered_key = refl

tampered_tag :
    toy_aes.decrypt (key_for 16) (slice 54 66 tampered_blob) (drop 66 tampered_blob) (1 ∷ 1 ∷ [])
    ≡ none
unfolding equal
tampered_tag = refl

unpack_refused_example : unpack toy_argon2 toy_aes tampered_blob pw ≡ err Error.keystore_decryption
unpack_refused_example =
    unpack_refused toy_argon2 toy_aes tampered_blob pw 1 (key_for 16) (omega arith) refl
      tampered_four tampered_five (omega arith) tampered_key refl tampered_tag

from_phrase-generate_example :
    (m : Mnemonic) × (generate toy_hashes sevens (pos 160) ≡ ok m)
    × (length (split toy_unicode m.phrase) ≡ 15)
    × (from_phrase toy_hashes toy_unicode m.phrase ≡ ok m)
    × (entropy toy_unicode m ≡ ok (record { buf = sevens 20 }))
from_phrase-generate_example =
    from_phrase-generate toy_hashes toy_hashes-IsHashes toy_unicode toy_unicode-IsUnicode sevens
      (λ n. length-replicate n 7) (λ n. All-replicate (λ d. d < 256) n 7 (omega arith)) 5
      (omega arith) (omega arith)

parse_part_marks_example :
    parse_part toy_unicode (codes "44''") ≡ parse_part toy_unicode (codes "44'")
parse_part_marks_example =
    parse_part_marks toy_unicode (codes "44") b'\'' b'\'' (inl refl) (inl refl)

-- The character 178, a superscript two, is a digit, but no decimal one.
refused : parse toy_unicode (b'm' ∷ b'/' ∷ 178 ∷ []) ≡ err Error.value_error
unfolding parse strip lstrip split_at traverse parse_part is_hardened rstrip_marks is_digits
    int_of_str read_digits equal
refused = refl

parse_raises_example :
    (Error.value_error ≡ Error.invalid_derivation_path)
    ⊎ ((Error.value_error ≡ Error.value_error) × AnyRefused toy_unicode (b'm' ∷ b'/' ∷ 178 ∷ []))
parse_raises_example = parse_raises toy_unicode (b'm' ∷ b'/' ∷ 178 ∷ []) Error.value_error refused

-- Three words are no phrase.
three_words :
    from_phrase toy_hashes toy_unicode (codes "legal winner thank") ≡ err Error.invalid_mnemonic
unfolding from_phrase split split_from valid_count
three_words = refl

from_phrase_raises_example : Error.invalid_mnemonic ≡ Error.invalid_mnemonic
from_phrase_raises_example =
    from_phrase_raises toy_hashes toy_unicode (codes "legal winner thank") Error.invalid_mnemonic
      three_words
