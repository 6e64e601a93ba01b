-- ===== src/Mnemonic/Raised.antt =====
-- The exceptions of `Mnemonic.from_phrase` (src/keystonecrypto/mnemonic.py).
use keystone_crypto.Prelude.{
  get_elem?, suc, true, ℕ, ◌*◌, ◌/◌, ◌^◌, ◌<◌, ◌≡◌, refl, ◌∙◌, List, [], ◌∷◌, Option, none, some,
  length, arith,
}
use keystone_crypto.Digits.{value, value-lt, AreDigits, digits}
use keystone_crypto.Errors.{Error, Result, ok, err}
use keystone_crypto.Errors.Raises.{Raises, Raises-err, Raises->>=, Raises-require}
use keystone_crypto.Bytes.{Bytes, to_bytes_fits, equal}
use keystone_crypto.Text.{Str}
use keystone_crypto.Unicode.{Unicode, split}
use keystone_crypto.Hashes.{Hashes}
use keystone_crypto.Words.{word_to_index}
use keystone_crypto.Mnemonic.{
  traverse, or_raise, index_of, checksum, from_phrase, valid_count, bits_of_indices, slice_last,
  slice_but_last, bytes_of_bits,
}
use keystone_crypto.Mnemonic.Pieces.{int_of_bits_some}
use keystone_crypto.Mnemonic.Sections.{two_pow_eight}
use keystone_crypto.Mnemonic.Accepted.{count_words, length-slice_but_last, slice_but_last-AreDigits}
use keystone_crypto.Mnemonic.Accepted.Indices.{
  Named, traverse-Named, length-bits_of_indices, bits_of_indices-AreDigits,
}

pub traverse-Raises :
    {A B : Type 0} (P : Error → Type 0) (f : A → Result B) (xs : List A)
    → ((k : ℕ) (x : A) → get_elem? xs k ≡ some x → Raises P (f x))
    → Raises P (traverse f xs)
unfolding traverse
traverse-Raises P f [] h = tt
traverse-Raises P f (x ∷ xs) h =
    Raises->>= P (f x) _ (h 0 x refl)
      λ y _. Raises->>= P (traverse f xs) _ (traverse-Raises P f xs (λ k. h (suc k))) λ ys _. tt

abbrev IsInvalidMnemonic : Error → Type 0
IsInvalidMnemonic e = e ≡ Error.invalid_mnemonic

index_of-Raises : (w : Str) → Raises IsInvalidMnemonic (index_of Error.invalid_mnemonic w)
unfolding index_of or_raise
index_of-Raises w = found (word_to_index w)
  where
    found : (o : Option ℕ) → Raises IsInvalidMnemonic (or_raise o Error.invalid_mnemonic)
    found none = refl
    found (some i) = tt

-- A whole number of bytes in bits is read.
bytes_of_bits_some :
    (n : ℕ) (bits : List ℕ)
    → 0 < n
    → length bits ≡ n * 8
    → AreDigits 2 bits
    → (ent : Bytes) × (bytes_of_bits bits ≡ ok ent)
unfolding bytes_of_bits
bytes_of_bits_some n bits n_pos size are =
    let whole : length bits / 8 ≡ n = omega arith in
    let small : value 2 bits < 256 ^ n = rw (← two_pow_eight n, ← size) (value-lt 2 bits are) in
    (
      digits 256 n (value 2 bits),
      rw (int_of_bits_some bits (omega arith), whole) (to_bytes_fits n (value 2 bits) small).0,
    )

-- The bits in front of the checksum are read as bytes.
front_read :
    (words : List Str) (indices : List ℕ)
    → valid_count (length words) ≡ true
    → Named words indices
    → (ent : Bytes) × (bytes_of_bits
          (slice_but_last (length words * 11 / 33) (bits_of_indices indices))
        ≡ ok ent)
front_read words indices valid named =
    let (k, count, lo, hi) = count_words (length words) valid in
    let c_is : length words * 11 / 33 ≡ k = omega arith in
    bytes_of_bits_some (4 * k) (slice_but_last (length words * 11 / 33) (bits_of_indices indices))
      (omega arith)
      (length-slice_but_last (length words * 11 / 33) (bits_of_indices indices) (omega arith)
        ∙ omega (arith, length-bits_of_indices words indices named))
      (slice_but_last-AreDigits (length words * 11 / 33) (bits_of_indices indices)
        (bits_of_indices-AreDigits words indices named))

from_phrase-Raises :
    (h : Hashes) (u : Unicode) (phrase : Str) → Raises IsInvalidMnemonic (from_phrase h u phrase)
unfolding from_phrase
from_phrase-Raises h u phrase =
    Raises-require IsInvalidMnemonic (valid_count (length words)) _ _ refl λ valid.
      Raises->>= IsInvalidMnemonic (traverse (index_of Error.invalid_mnemonic) words) _
        (traverse-Raises IsInvalidMnemonic (index_of Error.invalid_mnemonic) words
          (λ k w _. index_of-Raises w))
        λ indices found.
          let (ent, read) =
            front_read words indices valid
              (traverse-Named Error.invalid_mnemonic words indices found) in
          rw read (
            Raises-require IsInvalidMnemonic
              (equal (checksum h (length words * 11 / 33) ent)
                (slice_last (length words * 11 / 33) (bits_of_indices indices)))
              _ (ok (record { phrase = u.nfkd phrase })) refl λ _. tt)
  where
    words : List Str
    words = split u (u.nfkd phrase)

-- Whatever text it is given, `from_phrase` raises `InvalidMnemonicError` or returns; no `KeyError` of the
-- dictionary, `ValueError` of `int` or `OverflowError` of `to_bytes` gets out.
pub from_phrase_raises :
    (h : Hashes) (u : Unicode) (phrase : Str) (e : Error)
    → from_phrase h u phrase ≡ err e
    → e ≡ Error.invalid_mnemonic
from_phrase_raises h u phrase e raised =
    Raises-err IsInvalidMnemonic (from_phrase h u phrase) (from_phrase-Raises h u phrase) raised
