-- ===== src/Base58/Rounds.antt =====
-- The two loops of `_b58encode` (src/keystonecrypto/derivation.py) end.
use keystone_crypto.Prelude.{
  ℕ, zero, suc, ◌/◌, ◌%◌, ◌^◌, ◌≤◌, ◌<◌, ◌≡◌, refl, sym, false, [], ◌∷◌, ◌++◌, ◌==◌, take,
  Bool-cases, inl, inr, arith,
}
use native.Mathlib.Nat.{pow-suc, div-lt_iff_lt-mul}
use keystone_crypto.Errors.{ok, >>=-pointwise}
use keystone_crypto.Bytes.{Bytes, from_bytes, index}
use keystone_crypto.Text.{Str}
use keystone_crypto.Base58.{b58_alphabet, digit_loop, b58encode}
use keystone_crypto.Base58.RoundTrip.{b58encode-digits}

digit_loop_zero : (fuel : ℕ) (out : Bytes) → digit_loop fuel 0 out ≡ ok out
unfolding digit_loop
digit_loop_zero zero out = refl
digit_loop_zero (suc fuel) out = refl

-- Two numbers of rounds that are both enough make no difference.
digit_loop_enough :
    (f g n : ℕ) (out : Bytes) → n < 58 ^ f → n ≤ g → digit_loop f n out ≡ digit_loop g n out
unfolding digit_loop
digit_loop_enough zero g n out hf hg =
    let ended : n ≡ 0 = omega arith in rw ended (sym (digit_loop_zero g out))
digit_loop_enough (suc f) zero n out hf hg = let ended : n ≡ 0 = omega arith in rw ended refl
digit_loop_enough (suc f) (suc g) n out hf hg = elim (Bool-cases (n == 0)) [
  | inl ended ↦ rw ended refl
  | inr more ↦ rw more (
      >>=-pointwise (index b58_alphabet (n % 58))
        λ c. digit_loop_enough f g (n / 58) (out ++ c ∷ []) (fewer n f hf) (shorter n g more hg))
]
  where
    fewer : (n f : ℕ) → n < 58 ^ suc f → n / 58 < 58 ^ f
    fewer n f h = (div-lt_iff_lt-mul (omega arith)).1 (rw pow-suc at h)

    shorter : (n g : ℕ) → (n == 0) ≡ false → n ≤ suc g → n / 58 ≤ g
    shorter n g h le = ground arith

-- The text is there, whether the number is zero or not.
some_text : (b : Bytes) → (text : Str) × (b58encode b ≡ ok text)
unfolding b58encode
some_text b = elim (Bool-cases (from_bytes b == 0)) [
  | inl none_such ↦ (take 1 b58_alphabet, rw none_such refl)
  | inr digits_there ↦
      let (_, _, _, _, _, _, encoded) = b58encode-digits b (positive (from_bytes b) digits_there) in
      (_, encoded)
]
  where
    positive : (n : ℕ) → (n == 0) ≡ false → 0 < n
    positive n h = ground arith

-- `_b58encode` returns a text for all data. The loop of divisions ends after as many rounds as the
-- number has digits in base 58: with any number of rounds that is enough for them it gives the same.
pub b58encode_returns :
    (b : Bytes) (rounds : ℕ) (out : Bytes)
    → from_bytes b < 58 ^ rounds
    → (text : Str) × (b58encode b ≡ ok text)
      × (digit_loop rounds (from_bytes b) out ≡ digit_loop (from_bytes b) (from_bytes b) out)
b58encode_returns b rounds out h =
    let (text, encoded) = some_text b in
    (text, encoded, digit_loop_enough rounds (from_bytes b) (from_bytes b) out h (omega arith))
