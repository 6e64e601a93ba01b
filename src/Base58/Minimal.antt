-- ===== src/Base58/Minimal.antt =====
-- Bytes without their leading zeros, which `_b58encode` (src/keystonecrypto/derivation.py) writes apart.
use keystone_crypto.Prelude.{
  ℕ, zero, suc, ◌+◌, ◌*◌, ◌^◌, ◌≤◌, ◌≡◌, refl, sym, ap, ◌∙◌, List, [], ◌∷◌, ◌++◌, length, replicate,
  arith, ◌-◌,
}
use keystone_crypto.Digits.{
  value, digits, value-append, value-lt, num_digits, num_digits-le, num_digits_fits, digits_padded,
  digits-value,
}
use keystone_crypto.Bytes.{Bytes, AreBytes}
use keystone_crypto.Base58.RoundTrip.{leading_zeros, value_zeros}

-- A number in as few bytes as it fits in.
abbrev pub minimal : ℕ → Bytes
minimal n = digits 256 (num_digits 256 n) n

pub leading_zeros-append :
    (k : ℕ) (xs : List ℕ) → leading_zeros (replicate k 0 ++ xs) ≡ k + leading_zeros xs
leading_zeros-append zero xs = omega arith
leading_zeros-append (suc k) xs = omega (arith, leading_zeros-append k xs)

-- The leading zeros of bytes, and what follows them.
pub record Stripped (b : Bytes) : Type 0 where
  pub rest : Bytes
  pub same : b ≡ replicate (leading_zeros b) 0 ++ rest
  pub nonzero : leading_zeros rest ≡ 0
  pub are_bytes : AreBytes b → AreBytes rest

pub stripped : (b : Bytes) → Stripped b
stripped [] = record { rest = []; same = refl; nonzero = refl; are_bytes = λ h. tt }
stripped (zero ∷ b) =
    let s : Stripped b = stripped b in
    record {
      rest = s.rest;
      same = ap (λ (t : Bytes). 0 ∷ t) s.same;
      nonzero = s.nonzero;
      are_bytes = λ h. s.are_bytes h.1;
    }
stripped (suc x ∷ b) = record {
  rest = suc x ∷ b;
  same = ap (λ (k : ℕ). replicate k 0 ++ suc x ∷ b) (sym (not_zero x));
  nonzero = not_zero x;
  are_bytes = λ h. h;
}
  where
    not_zero : (x : ℕ) → leading_zeros (suc x ∷ b) ≡ 0
    not_zero x = ground arith

pub value_prefix : (b k : ℕ) (xs : List ℕ) → value b (replicate k 0 ++ xs) ≡ value b xs
value_prefix b k xs =
    value-append b (replicate k 0) xs
    ∙ ap (λ (t : ℕ). t * b ^ length xs + value b xs) (value_zeros b k)
    ∙ omega arith

-- Bytes without a leading zero are as few as their number fits in.
pub minimal-value : (b : Bytes) → AreBytes b → leading_zeros b ≡ 0 → minimal (value 256 b) ≡ b
minimal-value b h nonzero = shorter (length b - nd) padded
  where
    n : ℕ
    n = value 256 b

    nd : ℕ
    nd = num_digits 256 n

    fits : nd ≤ length b
    fits = num_digits-le 256 n (length b) (omega arith) (value-lt 256 b h)

    padded : b ≡ replicate (length b - nd) 0 ++ minimal n
    padded =
        sym (digits-value 256 b (omega arith) h)
        ∙ ap (λ (w : ℕ). digits 256 w n) {x = length b} {y = length b - nd + nd}
            (omega (arith, fits))
        ∙ digits_padded 256 (length b - nd) nd n (omega arith) (num_digits_fits 256 n (omega arith))

    shorter : (k : ℕ) → b ≡ replicate k 0 ++ minimal n → minimal n ≡ b
    shorter zero e = sym e
    shorter (suc k) e =
        absurd
          (omega (arith, nonzero, ap leading_zeros e, leading_zeros-append (suc k) (minimal n)))
