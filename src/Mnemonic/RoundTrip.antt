-- ===== src/Mnemonic/RoundTrip.antt =====
-- `Mnemonic.from_entropy`, `from_phrase` and `entropy` (src/keystonecrypto/mnemonic.py), one after
-- the other.
use keystone_crypto.Prelude.{
  ℕ, ◌*◌, ◌/◌, ◌≤◌, ◌<◌, ◌≡◌, ◌≢◌, ap, ◌∙◌, List, [], ◌++◌, true, length, length-append, All-append,
  arith,
}
use keystone_crypto.Digits.{digits, length-digits, digits-AreDigits, AreDigits}
use keystone_crypto.Errors.{Error, ok}
use keystone_crypto.Bytes.{Bytes, AreBytes, from_bytes, equal_refl}
use keystone_crypto.Unicode.{Unicode, IsUnicode, split, join}
use keystone_crypto.Unicode.Split.{split-join}
use keystone_crypto.Hashes.{Hashes, IsHashes}
use keystone_crypto.SecretBytes.{Value}
use keystone_crypto.Envelope.Plaintext.{new_of_ne-nil}
use keystone_crypto.Mnemonic.{
  Mnemonic, checksum, from_entropy, from_phrase, entropy, valid_count, slice_last, slice_but_last,
  bytes_of_bits,
}
use keystone_crypto.Mnemonic.Pieces.{Spells, pieces-Spells}
use keystone_crypto.Mnemonic.Sections.{
  slice_but_last-append, slice_last-append, entropy_bits, bytes_of_bits-digits, length-checksum,
  checksum-AreDigits, words-AreWords, join-IsAscii,
}

-- Entropy of `k` times four bytes has `k` bits of checksum and `3 * k` words.
module _ (h : Hashes) (h_laws : IsHashes h) (u : Unicode) (u_laws : IsUnicode u) (ent : Bytes)
    (k : ℕ) (four_k : length ent ≡ 4 * k) (k_pos : 0 < k) (k_le : k ≤ 256)
    (ent_bytes : AreBytes ent) where
  ent_bits : List ℕ
  ent_bits = digits 2 (length ent * 8) (from_bytes ent)

  length-ent_bits : length ent_bits ≡ length ent * 8
  unfolding ent_bits
  length-ent_bits = length-digits 2 (length ent * 8) (from_bytes ent)

  check : List ℕ
  check = checksum h k ent

  length-check : length check ≡ k
  unfolding check
  length-check = length-checksum h h_laws k ent k_le

  all_bits : List ℕ
  all_bits = ent_bits ++ check

  length-all_bits : length all_bits ≡ 11 * (3 * k)
  unfolding all_bits
  length-all_bits = length-append ent_bits check ∙ omega (arith, length-ent_bits, length-check)

  all_bits-AreDigits : AreDigits 2 all_bits
  unfolding all_bits ent_bits check
  all_bits-AreDigits =
      All-append (λ d. d < 2) ent_bits check (digits-AreDigits 2 _ _ (omega arith))
        (checksum-AreDigits h h_laws k ent)

  spelt : Spells all_bits (length all_bits) (3 * k)
  spelt =
      pieces-Spells (3 * k) (length all_bits) all_bits length-all_bits (omega arith)
        all_bits-AreDigits

  pub phrase_of : Mnemonic
  phrase_of = record { phrase = join spelt.words }

  pub from_entropy_lem : from_entropy h (Value.secret (record { buf = ent })) ≡ ok phrase_of
  unfolding from_entropy phrase_of all_bits ent_bits check
  from_entropy_lem =
      rw (entropy_bits ent (omega arith) ent_bytes, checksum_size) (rw spelt.words_found)
    where
      checksum_size : length ent * 8 / 32 ≡ k
      checksum_size = omega arith

  split-phrase_of : split u phrase_of.phrase ≡ spelt.words
  unfolding phrase_of
  split-phrase_of =
      split-join u u_laws spelt.words (words-AreWords u u_laws spelt.words spelt.are_words)

  count_words : length (split u phrase_of.phrase) ≡ 3 * k
  count_words = ap length split-phrase_of ∙ spelt.count

  checksum_size : 3 * k * 11 / 33 ≡ k
  checksum_size = omega arith

  front_bits : slice_but_last k all_bits ≡ ent_bits
  unfolding all_bits
  front_bits = slice_but_last-append k ent_bits check k_pos length-check

  back_bits : slice_last k all_bits ≡ check
  unfolding all_bits
  back_bits = slice_last-append k ent_bits check k_pos length-check

  same_bytes : bytes_of_bits ent_bits ≡ ok ent
  unfolding ent_bits
  same_bytes = bytes_of_bits-digits ent (omega arith) ent_bytes

  ent-ne-nil : ent ≢ []
  ent-ne-nil e = absurd (omega (arith, ap length e))

  pub entropy_lem : entropy u phrase_of ≡ ok (record { buf = ent })
  unfolding entropy
  entropy_lem = rw (
    split-phrase_of,
    spelt.indices_found Error.key_error,
    spelt.same_bits,
    spelt.count,
    checksum_size,
    front_bits,
    same_bytes,
    new_of_ne-nil ent ent-ne-nil,
  )

  pub from_phrase_lem : valid_count (3 * k) ≡ true → from_phrase h u phrase_of.phrase ≡ ok phrase_of
  unfolding from_phrase phrase_of check
  from_phrase_lem valid =
      rw
        (
          u_laws.nfkd_ascii (join spelt.words) (join-IsAscii spelt.words spelt.are_words),
          split-phrase_of,
        )
        (rw (
          spelt.count,
          valid,
          spelt.indices_found Error.invalid_mnemonic,
          spelt.same_bits,
          checksum_size,
          front_bits,
          same_bytes,
          back_bits,
          equal_refl check,
        ))

count_valid : (j : ℕ) → 4 ≤ j → j ≤ 8 → valid_count (3 * j) ≡ true
unfolding valid_count
count_valid j lower upper = ground arith

-- Entropy of 16, 20, 24, 28 or 32 bytes, `k` words of four bytes, becomes a phrase of `3 * k` words.
-- The phrase is accepted by `from_phrase`, and its entropy is the one that it was made from. The hash
-- and the Unicode tables follow their standards.
pub from_phrase-from_entropy :
    (h : Hashes)
    → IsHashes h
    → (u : Unicode) → IsUnicode u
    → (ent : Bytes) (k : ℕ) → length ent ≡ 4 * k
    → 4 ≤ k
    → k ≤ 8
    → AreBytes ent
    → (m : Mnemonic) × (from_entropy h (Value.secret (record { buf = ent })) ≡ ok m)
      × (length (split u m.phrase) ≡ 3 * k)
      × (from_phrase h u m.phrase ≡ ok m)
      × (entropy u m ≡ ok (record { buf = ent }))
from_phrase-from_entropy h h_laws u u_laws ent k four_k lo hi bytes = (
  phrase_of h h_laws u u_laws ent k four_k (omega arith) (omega arith) bytes,
  from_entropy_lem h h_laws u u_laws ent k four_k (omega arith) (omega arith) bytes,
  count_words h h_laws u u_laws ent k four_k (omega arith) (omega arith) bytes,
  from_phrase_lem h h_laws u u_laws ent k four_k (omega arith) (omega arith) bytes
      (count_valid k lo hi),
  entropy_lem h h_laws u u_laws ent k four_k (omega arith) (omega arith) bytes,
)
