-- ===== src/Mnemonic.antt =====
-- src/keystonecrypto/mnemonic.py: the class `Mnemonic`. The Unicode tables and the hashes are
-- parameters; texts of binary digits are lists of 0 and 1.
pub mod Pieces
pub mod Sections
pub mod RoundTrip
pub mod Accepted
pub mod Generated
pub mod Seed
pub mod SameEntropy
pub mod Raised
use keystone_crypto.Prelude.{
  ℕ, zero, suc, ◌+◌, ◌-◌, ◌*◌, ◌/◌, List, [], ◌∷◌, ◌++◌, Bool, true, false, ◌||◌, Option, none,
  some, length, take, drop, get_elem?, map, ◌==◌, not, if◌then◌else◌,
}
use mathlib.Core.List.{flatten}
use keystone_crypto.Digits.{value}
use keystone_crypto.Bits.{bin, zfill}
use keystone_crypto.Errors.{Error, Result, ok, err, ◌>>=◌, ◌>>◌, require}
use keystone_crypto.Bytes.{Bytes, ℤ, pos, negsuc, from_bytes, to_bytes, equal}
use keystone_crypto.Text.{Str, codes, decimal}
use keystone_crypto.Unicode.{Unicode, split, join, encode_utf8}
use keystone_crypto.Hashes.{Hashes}
use keystone_crypto.SecretBytes.{SecretBytes, Value, new}
use keystone_crypto.Entropy.{strength_bits, generate_entropy}
use keystone_crypto.Words.{word_list, word_to_index}

pub record Mnemonic : Type 0 where
  pub phrase : Str

-- A comprehension whose body may raise.
unfoldable pub traverse {ℓ κ} :
    {A : Type ℓ} {B : Type κ} → (A → Result B) → List A → Result (List B)
traverse f [] = ok []
traverse f (x ∷ xs) = do y ← f x; ys ← traverse f xs; ok (y ∷ ys)

-- `xs[:-k]` and `xs[-k:]`; `-0` is 0.
unfoldable pub slice_but_last : ℕ → List ℕ → List ℕ
slice_but_last zero xs = []
slice_but_last (suc k) xs = take (length xs - suc k) xs

unfoldable pub slice_last : ℕ → List ℕ → List ℕ
slice_last zero xs = xs
slice_last (suc k) xs = drop (length xs - suc k) xs

-- `int(bits, 2)`, which refuses the empty text.
unfoldable pub int_of_bits : List ℕ → Result ℕ
int_of_bits [] = err Error.value_error
int_of_bits (b ∷ bs) = ok (value 2 (b ∷ bs))

-- `xs[i:i + 11] for i in range(0, len(xs), 11)`; a piece takes an element at least, so `len(xs)`
-- rounds are enough.
unfoldable pub pieces : ℕ → List ℕ → List (List ℕ)
pieces zero xs = []
pieces (suc rounds) [] = []
pieces (suc rounds) (x ∷ xs) = take 11 (x ∷ xs) ∷ pieces rounds (drop 11 (x ∷ xs))

-- `f"{i:011b}"`
abbrev pub index_bits : ℕ → List ℕ
index_bits i = zfill 11 (bin i)

-- `"".join(f"{i:011b}" for i in indices)`
abbrev pub bits_of_indices : List ℕ → List ℕ
bits_of_indices indices = flatten (map index_bits indices)

unfoldable pub or_raise {ℓ} : {A : Type ℓ} → Option A → Error → Result A
or_raise none e = err e
or_raise (some a) e = ok a

-- `_WORD_TO_INDEX[w]`, with the error that a missing key ends in
unfoldable pub index_of : Error → Str → Result ℕ
unfolding or_raise
index_of e w = or_raise (word_to_index w) e

-- `int(ent_bits, 2).to_bytes(len(ent_bits) // 8, "big")`
unfoldable pub bytes_of_bits : List ℕ → Result Bytes
unfolding int_of_bits
bytes_of_bits ent_bits = do n ← int_of_bits ent_bits; to_bytes (length ent_bits / 8) n

unfoldable pub word_for : List ℕ → Result Str
unfolding int_of_bits or_raise
word_for piece = do i ← int_of_bits piece; or_raise (get_elem? word_list i) Error.index_error

unfoldable pub valid_count : ℕ → Bool
valid_count n = n == 12 || n == 15 || n == 18 || n == 21 || n == 24

-- `strength in STRENGTH_BITS`
abbrev one_of : ℕ → List ℕ → Bool
one_of s [] = false
one_of s (x ∷ xs) = x == s || one_of s xs

abbrev pub is_strength : ℤ → Bool
is_strength (pos s) = one_of s strength_bits
is_strength (negsuc s) = false

module _ (h : Hashes) where
  -- The first bits of the hash of the entropy.
  unfoldable pub checksum : ℕ → Bytes → List ℕ
  checksum checksum_bits ent = take checksum_bits (zfill 256 (bin (from_bytes (h.sha256 ent))))

  unfoldable pub from_entropy : Value → Result Mnemonic
  from_entropy (Value.secret entropy) = do
    let ent = entropy.buf
    let bits = zfill (length ent * 8) (bin (from_bytes ent))
    let checksum_bits = length ent * 8 / 32
    let all_bits = bits ++ checksum checksum_bits ent
    words ← traverse word_for (pieces (length all_bits) all_bits)
    ok (record { phrase = join words })
  from_entropy _ = err Error.type_error

  -- `token_bytes` is the answer of `secrets.token_bytes` in this call.
  unfoldable pub generate : (ℕ → Bytes) → ℤ → Result Mnemonic
  generate token_bytes strength = do
    require (is_strength strength) Error.value_error
    entropy ← generate_entropy token_bytes strength
    from_entropy (Value.secret entropy)

  module _ (u : Unicode) where
    unfoldable pub from_phrase : Str → Result Mnemonic
    from_phrase phrase = do
      let normalized_phrase = u.nfkd phrase
      let words = split u normalized_phrase
      require (valid_count (length words)) Error.invalid_mnemonic
      indices ← traverse (index_of Error.invalid_mnemonic) words
      let bits = bits_of_indices indices
      let checksum_bits = length words * 11 / 33
      let cs_bits = slice_last checksum_bits bits
      ent_bytes ← bytes_of_bits (slice_but_last checksum_bits bits)
      require (equal (checksum checksum_bits ent_bytes) cs_bits) Error.invalid_mnemonic
      ok (record { phrase = normalized_phrase })

module _ (u : Unicode) where
  -- The property `entropy`.
  unfoldable pub entropy : Mnemonic → Result SecretBytes
  entropy self = do
    let words = split u self.phrase
    indices ← traverse (index_of Error.key_error) words
    let bits = bits_of_indices indices
    let checksum_bits = length words * 11 / 33
    ent_bytes ← bytes_of_bits (slice_but_last checksum_bits bits)
    new ent_bytes

  or_invalid_passphrase : Result Bytes → Result Bytes
  or_invalid_passphrase (ok b) = ok b
  or_invalid_passphrase (err e) = err Error.invalid_passphrase

  -- `encode` raises nothing but `UnicodeError`.
  unfoldable pub seed : Hashes → Mnemonic → Str → Result SecretBytes
  unfolding or_invalid_passphrase
  seed h self passphrase = do
    normalized_mnemonic ← or_invalid_passphrase (encode_utf8 (u.nfkd self.phrase))
    normalized_salt ← or_invalid_passphrase (encode_utf8 (u.nfkd (codes "mnemonic" ++ passphrase)))
    new (h.pbkdf2_sha512 normalized_mnemonic normalized_salt 2048 64)

  unfoldable pub repr : Mnemonic → Str
  repr self =
      codes "<Mnemonic words=" ++ (decimal (length (split u self.phrase)) ++ codes " redacted>")

-- `__eq__` against another mnemonic, and against any other value (`NotImplemented`).
unfoldable pub eq : Mnemonic → Option Mnemonic → Option Bool
eq self none = none
eq self (some o) = some (equal self.phrase o.phrase)

-- `__hash__`; `hash_str` is Python's hash of a text.
unfoldable pub hash : (Str → ℤ) → Mnemonic → ℤ
hash hash_str self = hash_str self.phrase
