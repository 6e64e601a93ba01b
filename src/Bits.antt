-- ===== src/Bits.antt =====
-- Python's texts of binary digits, as lists of 0 and 1: `bin(n)[2:]`, `zfill`, `f"{i:011b}"`.
use keystone_crypto.Prelude.{
  ℕ, ◌+◌, ◌-◌, ◌^◌, ◌≤◌, ◌<◌, ◌≡◌, sym, ap, ◌∙◌, List, [], ◌∷◌, ◌++◌, arith, length, replicate,
  ◌==◌, if◌then◌else◌, Bool-cases, inl, inr, true,
}
use keystone_crypto.Digits.{
  digits, length-digits, num_digits, num_digits_fits, num_digits-le, digits_padded,
}

-- `bin(n)[2:]`: as many digits as `n` needs, and one for 0.
unfoldable pub bin : ℕ → List ℕ
bin n = if n == 0 then 0 ∷ [] else digits 2 (num_digits 2 n) n

-- Zeros in front, up to `w` digits; a longer text stays.
unfoldable pub zfill : ℕ → List ℕ → List ℕ
zfill w ds = replicate (w - length ds) 0 ++ ds

pad : (w l n : ℕ) → l ≤ w → n < 2 ^ l → zfill w (digits 2 l n) ≡ digits 2 w n
unfolding zfill
pad w l n h lt = rw (length-digits 2 l n) (
    sym (digits_padded 2 (w - l) l n (omega arith) lt)
    ∙ ap (λ (k : ℕ). digits 2 k n) {x = w - l + l} {y = w} (omega arith))

-- Padded, the binary digits of a number that fits are its digits in `w` places.
pub zfill-bin : (w n : ℕ) → 0 < w → n < 2 ^ w → zfill w (bin n) ≡ digits 2 w n
unfolding bin digits
zfill-bin w n h lt = elim (Bool-cases (n == 0)) [
  | inl is_zero ↦ rw is_zero (rw (n_is_zero is_zero) (pad w 1 0 h (omega arith)))
  | inr positive ↦ rw positive (
      pad w (num_digits 2 n) n (num_digits-le 2 n w (omega arith) lt)
        (num_digits_fits 2 n (omega arith)))
]
  where
    n_is_zero : (n == 0) ≡ true → n ≡ 0
    n_is_zero e = ground arith
