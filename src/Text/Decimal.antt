-- ===== src/Text/Decimal.antt =====
-- What `str(n)` writes.
use keystone_crypto.Prelude.{
  ℕ, zero, suc, ◌+◌, ◌^◌, ◌≤◌, ◌<◌, ◌≡◌, refl, List, [], ◌∷◌, map, false, length, ◌==◌, Bool-cases,
  inl, inr, arith,
}
use keystone_crypto.Digits.{
  digits, value, num_digits, num_digits_fits, num_digits-le, length-digits, digits-AreDigits,
  value-digits_of_lt, AreDigits,
}
use keystone_crypto.Text.{decimal}

-- The digits behind the text of a number.
pub record Numeral (n : ℕ) : Type 0 where
  pub ds : List ℕ
  pub are_digits : AreDigits 10 ds
  pub same : value 10 ds ≡ n
  pub written : decimal n ≡ map (λ d. d + 48) ds
  pub some_digit : 0 < length ds
  pub size : (w : ℕ) → 0 < w → n < 10 ^ w → length ds ≤ w

some_digits : (n : ℕ) → (n == 0) ≡ false → 0 < num_digits 10 n
some_digits n h = positive (num_digits 10 n) (num_digits_fits 10 n (omega arith))
  where
    positive : (w : ℕ) → n < 10 ^ w → 0 < w
    positive zero lt = ground arith
    positive (suc w) lt = omega arith

pub decimal-Numeral : (n : ℕ) → Numeral n
unfolding decimal value
decimal-Numeral n = elim (Bool-cases (n == 0)) [
  | inl is_zero ↦ record {
    ds = 0 ∷ [];
    are_digits = (omega arith, tt);
    same = ground arith;
    written = rw is_zero refl;
    some_digit = omega arith;
    size = λ w h lt. omega arith;
  }
  | inr positive ↦ record {
    ds = digits 10 (num_digits 10 n) n;
    are_digits = digits-AreDigits 10 (num_digits 10 n) n (omega arith);
    same =
        value-digits_of_lt 10 (num_digits 10 n) n (omega arith)
          (num_digits_fits 10 n (omega arith));
    written = rw positive refl;
    some_digit = omega (arith, length-digits 10 (num_digits 10 n) n, some_digits n positive);
    size = λ w h lt.
        omega (arith, length-digits 10 (num_digits 10 n) n, num_digits-le 10 n w (omega arith) lt);
  }
]
