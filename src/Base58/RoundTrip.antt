-- ===== src/Base58/RoundTrip.antt =====
-- The text that `_b58encode` (src/keystonecrypto/derivation.py) writes, against digits in base 58.
use keystone_crypto.Prelude.{
  ℕ, zero, suc, ◌+◌, ◌*◌, ◌/◌, ◌%◌, ◌≤◌, ◌<◌, ◌≡◌, refl, sym, ap, ◌∙◌, List, [], ◌∷◌, ◌++◌, false,
  length, reverse, replicate, ◌==◌, if◌then◌else◌, Bool-cases, inl, inr, arith,
}
use mathlib.Core.List.{append_assoc, append-nil}
use keystone_crypto.Digits.{value, AreDigits}
use keystone_crypto.Errors.{ok}
use keystone_crypto.Bytes.{Bytes, from_bytes, index, index_of_lt}
use keystone_crypto.Base58.{b58_alphabet, digit_loop, zero_loop, b58encode}

-- The number that digits spell, the lowest digit first.
abbrev pub low_value : List ℕ → ℕ
low_value [] = 0
low_value (d ∷ ds) = d + 58 * low_value ds

-- The letters of digits, one by one.
abbrev pub AreLetters : List ℕ → Bytes → Type 0
AreLetters [] [] = Unit
AreLetters (d ∷ ds) (c ∷ cs) = (index b58_alphabet d ≡ ok c) × AreLetters ds cs
AreLetters _ _ = ⊥

-- The highest digit, if there is one, is not zero.
abbrev pub IsTrimmed : List ℕ → Type 0
IsTrimmed [] = Unit
IsTrimmed (d ∷ []) = 0 < d
IsTrimmed (d ∷ e ∷ ds) = IsTrimmed (e ∷ ds)

abbrev pub leading_zeros : Bytes → ℕ
leading_zeros [] = 0
leading_zeros (b ∷ bs) = let more = suc (leading_zeros bs) in if b == 0 then more else 0

length-alphabet : length b58_alphabet ≡ 58
unfolding b58_alphabet
length-alphabet = refl

pub one_letter : index b58_alphabet 0 ≡ ok b'1'
unfolding b58_alphabet index
one_letter = refl

-- What the loop of divisions appends.
record Written (fuel n : ℕ) : Type 0 where
  ds : List ℕ
  letters : Bytes
  are_digits : AreDigits 58 ds
  trimmed : IsTrimmed ds
  same : low_value ds ≡ n
  are_letters : AreLetters ds letters
  appended : (out : Bytes) → digit_loop fuel n out ≡ ok (out ++ letters)

cons-IsTrimmed :
    (d n : ℕ) (ds : List ℕ) → IsTrimmed ds → low_value ds ≡ n → 0 < d + 58 * n → IsTrimmed (d ∷ ds)
cons-IsTrimmed d n [] h e pos_n = omega arith
cons-IsTrimmed d n (x ∷ ds) h e pos_n = h

zero-Written : (fuel : ℕ) → Written fuel 0
unfolding digit_loop
zero-Written zero = record {
  ds = [];
  letters = [];
  are_digits = tt;
  trimmed = tt;
  same = refl;
  are_letters = tt;
  appended = λ out. ap ok (sym (append-nil out));
}
zero-Written (suc fuel) = record {
  ds = [];
  letters = [];
  are_digits = tt;
  trimmed = tt;
  same = refl;
  are_letters = tt;
  appended = λ out. ap ok (sym (append-nil out));
}

suc_not_zero : (n : ℕ) → (suc n == 0) ≡ false
suc_not_zero n = ground arith

digit_loop-Written : (fuel n : ℕ) → n ≤ fuel → Written fuel n
unfolding digit_loop
digit_loop-Written fuel zero h = zero-Written fuel
digit_loop-Written zero (suc n) h = absurd (omega arith)
digit_loop-Written (suc fuel) (suc n) h =
    let (c, found) = index_of_lt b58_alphabet (suc n % 58) (omega (arith, length-alphabet)) in
    let rest : Written fuel (suc n / 58) = digit_loop-Written fuel (suc n / 58) (omega arith) in
    record {
      ds = (suc n % 58) ∷ rest.ds;
      letters = c ∷ rest.letters;
      are_digits = (omega arith, rest.are_digits);
      trimmed =
          cons-IsTrimmed (suc n % 58) (suc n / 58) rest.ds rest.trimmed rest.same (omega arith);
      same = omega (arith, rest.same);
      are_letters = (found, rest.are_letters);
      appended = λ out.
          rw (suc_not_zero n, found)
            (rest.appended (out ++ c ∷ []) ∙ ap ok (append_assoc out (c ∷ []) rest.letters));
    }

zero_loop-append :
    (data' out : Bytes) → zero_loop data' out ≡ ok (out ++ replicate (leading_zeros data') b'1')
unfolding zero_loop
zero_loop-append [] out = ap ok (sym (append-nil out))
zero_loop-append (b ∷ data') out = elim (Bool-cases (b == 0)) [
  | inl is_zero ↦
      rw (is_zero, one_letter)
        (zero_loop-append data' (out ++ b'1' ∷ [])
          ∙ ap ok (append_assoc out (b'1' ∷ []) (replicate (leading_zeros data') b'1')))
  | inr other ↦ rw other (ap ok (sym (append-nil out)))
]

-- Data that is not all zero is written as the letters of the digits of its number in base 58, the
-- lowest digit last and without a zero in front, behind a letter 1 for each leading zero byte.
pub b58encode-digits :
    (b : Bytes)
    → 0 < from_bytes b
    → (ds : List ℕ) × (letters : Bytes) × AreDigits 58 ds
      × IsTrimmed ds
      × (low_value ds ≡ from_bytes b)
      × AreLetters ds letters
      × (b58encode b ≡ ok (reverse (letters ++ replicate (leading_zeros b) b'1')))
unfolding b58encode
b58encode-digits b h =
    let w : Written (from_bytes b) (from_bytes b) =
      digit_loop-Written (from_bytes b) (from_bytes b) (omega arith) in
    (
      w.ds,
      w.letters,
      w.are_digits,
      w.trimmed,
      w.same,
      w.are_letters,
      rw (not_zero (from_bytes b) h, w.appended [], zero_loop-append b w.letters) refl,
    )
  where
    not_zero : (n : ℕ) → 0 < n → (n == 0) ≡ false
    not_zero n lt = ground arith

pub value_zeros : (b k : ℕ) → value b (replicate k 0) ≡ 0
unfolding value
value_zeros b zero = refl
value_zeros b (suc k) = omega (arith, value_zeros b k)
