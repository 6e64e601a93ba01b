-- ===== src/Base58/Injective.antt =====
-- Which data `_b58encode` (src/keystonecrypto/derivation.py) writes as the same text.
use keystone_crypto.Prelude.{
  ℕ, zero, suc, ◌<◌, ◌≡◌, ◌⊎◌, inl, inr, refl, sym, ap, ◌∙◌, [], ◌∷◌, some, arith,
}
use mathlib.Core.Logic.{◌↔◌}
use keystone_crypto.Digits.{value, digits, num_digits}
use keystone_crypto.Errors.{ok, ok-injective}
use keystone_crypto.Bytes.{Bytes, AreBytes, from_bytes}
use keystone_crypto.Base58.{b58_alphabet, b58encode}
use keystone_crypto.Base58.Decode.{b58decode, text_digits, find_letter, b58decode-b58encode}

zero_cases : (n : ℕ) → (n ≡ 0) ⊎ (0 < n)
zero_cases zero = inl refl
zero_cases (suc n) = inr (omega arith)

-- Zero bytes are written as a single letter 1, however many there are, even none.
pub b58encode_zero : (b : Bytes) → from_bytes b ≡ 0 → b58encode b ≡ ok (b'1' ∷ [])
unfolding b58encode b58_alphabet
b58encode_zero b h = rw h refl

decode_one : b58decode (b'1' ∷ []) ≡ some (0 ∷ [])
unfolding b58decode text_digits find_letter b58_alphabet value digits num_digits
decode_one = refl

some-injective : (a b : Bytes) → some a ≡ some b → a ≡ b
some-injective a b h = cc

-- The text of other data is not that of zero bytes.
apart :
    (a b : Bytes) → AreBytes a → 0 < from_bytes a → from_bytes b ≡ 0 → b58encode a ≡ b58encode b → ⊥
apart a b are_bytes positive zeros e =
    let (text, written, read) = b58decode-b58encode a are_bytes positive in
    let one : text ≡ b'1' ∷ [] = ok-injective (sym written ∙ e ∙ b58encode_zero b zeros) in
    let same : a ≡ 0 ∷ [] = some-injective a (0 ∷ []) (sym read ∙ ap b58decode one ∙ decode_one) in
    absurd (omega (arith, positive, ap from_bytes same, zero_byte))
  where
    zero_byte : from_bytes (0 ∷ []) ≡ 0
    zero_byte = unfold value in refl

-- Two byte strings are written as the same text exactly if they are equal or both hold zero bytes only,
-- whatever their lengths.
pub b58encode_eq_iff :
    (a b : Bytes)
    → AreBytes a
    → AreBytes b
    → (b58encode a ≡ b58encode b) ↔ ((a ≡ b) ⊎ ((from_bytes a ≡ 0) × (from_bytes b ≡ 0)))
b58encode_eq_iff a b bytes_a bytes_b = (to, from)
  where
    to : b58encode a ≡ b58encode b → (a ≡ b) ⊎ ((from_bytes a ≡ 0) × (from_bytes b ≡ 0))
    to e = elim (zero_cases (from_bytes a)) [
      | inl zero_a ↦ elim (zero_cases (from_bytes b)) [
        | inl zero_b ↦ inr (zero_a, zero_b)
        | inr pos_b ↦ absurd (apart b a bytes_b pos_b zero_a (sym e))
      ]
      | inr pos_a ↦ elim (zero_cases (from_bytes b)) [
        | inl zero_b ↦ absurd (apart a b bytes_a pos_a zero_b e)
        | inr pos_b ↦
            let (s, written_a, read_a) = b58decode-b58encode a bytes_a pos_a in
            let (t, written_b, read_b) = b58decode-b58encode b bytes_b pos_b in
            let same : s ≡ t = ok-injective (sym written_a ∙ e ∙ written_b) in
            inl (some-injective a b (sym read_a ∙ ap b58decode same ∙ read_b))
      ]
    ]

    from : (a ≡ b) ⊎ ((from_bytes a ≡ 0) × (from_bytes b ≡ 0)) → b58encode a ≡ b58encode b
    from (inl same) = ap b58encode same
    from (inr (zero_a, zero_b)) = b58encode_zero a zero_a ∙ sym (b58encode_zero b zero_b)
