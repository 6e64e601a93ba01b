-- ===== src/Mnemonic/Accepted.antt =====
-- `Mnemonic.from_phrase` (src/keystonecrypto/mnemonic.py) on all phrases.
pub mod Indices
use keystone_crypto.Prelude.{
  ℕ, zero, suc, ◌+◌, ◌-◌, ◌*◌, ◌/◌, ◌^◌, ◌≤◌, ◌<◌, ◌≡◌, ◌≢◌, refl, sym, ap, ◌∙◌, List, [], ◌∷◌,
  ◌++◌, Bool, true, false, ◌||◌, length, length-take, length-append, take, drop, take-append-drop,
  All-take, ltb, ◌==◌, if◌then◌else◌, arith,
}
use mathlib.Core.Path.{subst}
use keystone_crypto.Digits.{
  value, digits, length-digits, digits-AreDigits, digits-value, value-lt, AreDigits,
  value-digits_of_lt,
}
use keystone_crypto.Bits.{bin, zfill, zfill-bin}
use keystone_crypto.Errors.{
  Error, Result, ok, err, ok-injective, ◌>>=◌, ◌>>◌, require, >>=-eq-ok, if-eq-ok, require-eq-ok,
}
use keystone_crypto.Bytes.{Bytes, AreBytes, from_bytes, to_bytes, equal, equal→eq}
use keystone_crypto.Text.{Str}
use keystone_crypto.Unicode.{Unicode, split, join}
use keystone_crypto.Hashes.{Hashes}
use keystone_crypto.SecretBytes.{SecretBytes, Value, new}
use keystone_crypto.Envelope.Plaintext.{new_of_ne-nil}
use keystone_crypto.Mnemonic.{
  Mnemonic, traverse, index_of, checksum, from_entropy, from_phrase, entropy, valid_count,
  bits_of_indices, slice_last, slice_but_last, bytes_of_bits, pieces, word_for,
}
use keystone_crypto.Mnemonic.Pieces.{int_of_bits_some}
use keystone_crypto.Mnemonic.Sections.{two_pow_eight}
use keystone_crypto.Mnemonic.Accepted.Indices.{
  Named, traverse-Named, Named-traverse, length-Named, length-bits_of_indices,
  bits_of_indices-AreDigits, words_of_bits,
}

-- A phrase has five possible lengths.
pub count_words : (n : ℕ) → valid_count n ≡ true → (k : ℕ) × (n ≡ 3 * k) × (4 ≤ k) × (k ≤ 8)
unfolding valid_count
count_words n h = (n / 3, ground arith, ground arith, ground arith)

slices : (k : ℕ) (xs : List ℕ) → 0 < k → slice_but_last k xs ++ slice_last k xs ≡ xs
unfolding slice_but_last slice_last
slices zero xs h = absurd (omega arith)
slices (suc k) xs h = take-append-drop (length xs - suc k) xs

pub length-slice_but_last :
    (k : ℕ) (xs : List ℕ) → 0 < k → length (slice_but_last k xs) ≡ length xs - k
unfolding slice_but_last
length-slice_but_last zero xs h = absurd (omega arith)
length-slice_but_last (suc k) xs h = length-take (length xs - suc k) xs ∙ omega arith

pub slice_but_last-AreDigits :
    (k : ℕ) (xs : List ℕ) → AreDigits 2 xs → AreDigits 2 (slice_but_last k xs)
unfolding slice_but_last
slice_but_last-AreDigits zero xs h = tt
slice_but_last-AreDigits (suc k) xs h = All-take (λ d. d < 2) (length xs - suc k) xs h

-- The bytes of a whole number of them in bits, and the bits of those bytes.
bytes_of_bits-eq-ok :
    (n : ℕ) (bits : List ℕ) (ent : Bytes)
    → 0 < n
    → length bits ≡ n * 8
    → AreDigits 2 bits
    → bytes_of_bits bits ≡ ok ent
    → (length ent ≡ n)
      × AreBytes ent
      × (from_bytes ent ≡ value 2 bits)
      × (zfill (length ent * 8) (bin (from_bytes ent)) ≡ bits)
unfolding bytes_of_bits to_bytes
bytes_of_bits-eq-ok n bits ent n_pos size are e =
    let (v, read, e1) = >>=-eq-ok _ (λ v. to_bytes (length bits / 8) v) e in
    let v_is : value 2 bits ≡ v = ok-injective (sym (int_of_bits_some bits (omega arith)) ∙ read) in
    let (_, made) =
      if-eq-ok (ltb v (256 ^ (length bits / 8))) (ok (digits 256 (length bits / 8) v))
        Error.overflow_error e1 in
    let small : value 2 bits < 256 ^ n = rw (← two_pow_eight n, ← size) (value-lt 2 bits are) in
    let shape : digits 256 n (value 2 bits) ≡ ent =
      ap (λ (w : ℕ). digits 256 w (value 2 bits)) {x = n} {y = length bits / 8} (omega arith)
      ∙ ap (digits 256 (length bits / 8)) v_is
      ∙ ok-injective made in
    let long : length ent ≡ n = ap length (sym shape) ∙ length-digits 256 n (value 2 bits) in
    let same : from_bytes ent ≡ value 2 bits =
      ap from_bytes (sym shape) ∙ value-digits_of_lt 256 n (value 2 bits) (omega arith) small in
    (
      long,
      rw (← shape) (digits-AreDigits 256 n (value 2 bits) (omega arith)),
      same,
      rw (same, long, ← size)
          (zfill-bin (length bits) (value 2 bits) (omega arith) (value-lt 2 bits are)
            ∙ digits-value 2 bits (omega arith) are),
    )

-- What makes a phrase acceptable: its words are those that `from_entropy` writes for `entropy`, and
-- `entropy` is what the mnemonic's property returns.
pub record SpellsEntropy (h : Hashes) (u : Unicode) (m : Mnemonic) : Type 0 where
  pub secret : SecretBytes
  pub k : ℕ
  pub k_range : (4 ≤ k) × (k ≤ 8)
  pub size : length secret.buf ≡ 4 * k
  pub are_bytes : AreBytes secret.buf
  pub word_count : length (split u m.phrase) ≡ 3 * k
  pub read : entropy u m ≡ ok secret
  pub written :
      from_entropy h (Value.secret secret) ≡ ok (record { phrase = join (split u m.phrase) })

module _ (h : Hashes) (u : Unicode) (m : Mnemonic) (indices : List ℕ) (k : ℕ) (ent : Bytes)
    (count : length (split u m.phrase) ≡ 3 * k) (lo : 4 ≤ k) (hi : k ≤ 8)
    (named : Named (split u m.phrase) indices)
    (bytes_read : bytes_of_bits (slice_but_last k (bits_of_indices indices)) ≡ ok ent)
    (checked : checksum h k ent ≡ slice_last k (bits_of_indices indices)) where
  words : List Str
  words = split u m.phrase

  bits : List ℕ
  bits = bits_of_indices indices

  length-bits : length bits ≡ 33 * k
  unfolding bits
  length-bits = length-bits_of_indices (split u m.phrase) indices named ∙ omega arith

  shape :
      (length ent ≡ 4 * k)
      × AreBytes ent
      × (from_bytes ent ≡ value 2 (slice_but_last k bits))
      × (zfill (length ent * 8) (bin (from_bytes ent)) ≡ slice_but_last k bits)
  unfolding bits
  shape =
      bytes_of_bits-eq-ok (4 * k) (slice_but_last k (bits_of_indices indices)) ent (omega arith)
        (length-slice_but_last k (bits_of_indices indices) (omega arith)
          ∙ omega (arith, length-bits))
        (slice_but_last-AreDigits k (bits_of_indices indices)
          (bits_of_indices-AreDigits (split u m.phrase) indices named))
        bytes_read

  checksum_size : 3 * k * 11 / 33 ≡ k
  checksum_size = omega arith

  ent_checksum_size : length ent * 8 / 32 ≡ k
  ent_checksum_size = omega (arith, shape.0)

  all_bits : slice_but_last k bits ++ checksum h k ent ≡ bits
  unfolding bits
  all_bits =
      ap (λ (t : List ℕ). slice_but_last k (bits_of_indices indices) ++ t) checked
      ∙ slices k (bits_of_indices indices) (omega arith)

  ent-ne-nil : ent ≢ []
  ent-ne-nil e = absurd (omega (arith, shape.0, ap length e))

  spells : SpellsEntropy h u m
  unfolding from_entropy entropy bits
  spells = record {
    secret = record { buf = ent };
    k = k;
    k_range = (lo, hi);
    size = shape.0;
    are_bytes = shape.1;
    word_count = count;
    read = rw (
      Named-traverse Error.key_error (split u m.phrase) indices named,
      count,
      checksum_size,
      bytes_read,
      new_of_ne-nil ent ent-ne-nil,
    );
    written = rw (
      shape.3,
      ent_checksum_size,
      all_bits,
      words_of_bits (length (bits_of_indices indices)) (split u m.phrase) indices named
          (omega (arith, length-bits, count)),
    );
  }

-- A phrase that `from_phrase` returns a mnemonic for is kept in its normal form, and its words are
-- those of some entropy of 16, 20, 24, 28 or 32 bytes, which the property `entropy` returns.
pub from_phrase-SpellsEntropy :
    (h : Hashes) (u : Unicode) (phrase : Str) (m : Mnemonic)
    → from_phrase h u phrase ≡ ok m
    → (m.phrase ≡ u.nfkd phrase) × SpellsEntropy h u m
unfolding from_phrase
from_phrase-SpellsEntropy h u phrase m e =
    let words : List Str = split u (u.nfkd phrase) in
    let (valid, e1) = require-eq-ok (valid_count (length words)) _ _ e in
    let (indices, found, e2) = >>=-eq-ok (traverse (index_of Error.invalid_mnemonic) words) _ e1 in
    let bits : List ℕ = bits_of_indices indices in
    let c : ℕ = length words * 11 / 33 in
    let (ent, bytes_read, e3) = >>=-eq-ok (bytes_of_bits (slice_but_last c bits)) _ e2 in
    let (checked, last) = require-eq-ok (equal (checksum h c ent) (slice_last c bits)) _ _ e3 in
    let same : record { phrase = u.nfkd phrase } ≡ m = ok-injective last in
    let (k, count, lo, hi) = count_words (length words) valid in
    let c_is : c ≡ k = omega arith in
    let normal : SpellsEntropy h u (record { phrase = u.nfkd phrase }) =
      spells h u (record { phrase = u.nfkd phrase }) indices k ent count lo hi
        (traverse-Named Error.invalid_mnemonic words indices found)
        (sym (ap (λ (j : ℕ). bytes_of_bits (slice_but_last j bits)) c_is) ∙ bytes_read)
        (sym (ap (λ (j : ℕ). checksum h j ent) c_is)
          ∙ equal→eq (checksum h c ent) (slice_last c bits) checked
          ∙ ap (λ (j : ℕ). slice_last j bits) c_is) in
    (ap (λ (x : Mnemonic). x.phrase) (sym same), subst (SpellsEntropy h u) same normal)
