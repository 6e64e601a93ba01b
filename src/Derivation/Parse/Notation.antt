-- ===== src/Derivation/Parse/Notation.antt =====
-- `DerivationPath.parse` (src/keystonecrypto/derivation.py) on one component in the usual notation.
use keystone_crypto.Prelude.{
  ℕ, suc, ◌+◌, ◌*◌, ◌^◌, ◌≤◌, ◌<◌, ◌≡◌, ◌≢◌, refl, ap, ◌∙◌, List, [], ◌∷◌, ◌++◌, map, reverse,
  reverse-snoc, reverse-reverse, All-reverse, Bool, true, false, ◌&&◌, not, length, leb, ltb,
  le→ltb, All, arith,
}
use native.Mathlib.Nat.{pow-suc}
use keystone_crypto.Digits.{value, AreDigits}
use keystone_crypto.Errors.{ok, if_false, if_true}
use keystone_crypto.Bytes.{pos}
use keystone_crypto.Text.{Str, decimal}
use keystone_crypto.Text.Decimal.{Numeral, decimal-Numeral}
use keystone_crypto.Unicode.{Unicode, IsUnicode, strip, lstrip}
use keystone_crypto.Derivation.{
  is_mark, starts_marked, drop_marks, is_hardened, rstrip_marks, all_digits, is_digits, next_value,
  read_digits, int_of_str, parse_part,
}

-- `44'`, `44h` or `44`: the text of a component, with the mark that says that it is hardened.
abbrev pub part_text : ℕ → Bool → ℕ → Str
part_text n true mark = decimal n ++ mark ∷ []
part_text n false mark = decimal n

abbrev IsDigit : ℕ → Type 0
IsDigit c = (48 ≤ c) × (c ≤ 57)

map-IsDigit : (ds : List ℕ) → AreDigits 10 ds → All IsDigit (map (λ d. d + 48) ds)
map-IsDigit [] h = tt
map-IsDigit (d ∷ ds) (h, hs) = ((omega arith, omega arith), map-IsDigit ds hs)

not_nil : (ds : List ℕ) → 0 < length ds → map (λ d. d + 48) ds ≢ []
not_nil [] h e = absurd (omega arith)
not_nil (d ∷ ds) h e = cc

-- A text of digits is not marked, and no mark is stripped from its end.
digits_unmarked : (t : Str) → All IsDigit t → (starts_marked t ≡ false) × (drop_marks t ≡ t)
unfolding starts_marked drop_marks is_mark
digits_unmarked [] h = (refl, refl)
digits_unmarked (c ∷ t) ((lo, hi), _) = (no_mark c lo hi, if_false _ _ (no_mark c lo hi))
  where
    no_mark : (c : ℕ) → 48 ≤ c → c ≤ 57 → is_mark c ≡ false
    no_mark c lo hi = ground arith

plain_part : (t : Str) → All IsDigit t → (is_hardened t ≡ false) × (rstrip_marks t ≡ t)
unfolding is_hardened rstrip_marks
plain_part t h =
    let (unmarked, kept) = digits_unmarked (reverse t) (All-reverse IsDigit t h) in
    (unmarked, ap reverse kept ∙ reverse-reverse t)

marked_part :
    (t : Str) (mark : ℕ)
    → is_mark mark ≡ true
    → All IsDigit t
    → (is_hardened (t ++ mark ∷ []) ≡ true) × (rstrip_marks (t ++ mark ∷ []) ≡ t)
unfolding is_hardened rstrip_marks starts_marked drop_marks
marked_part t mark m h =
    let (_, kept) = digits_unmarked (reverse t) (All-reverse IsDigit t h) in
    (
      rw (reverse-snoc t mark) m,
      rw (reverse-snoc t mark) (ap reverse (if_true _ _ m ∙ kept) ∙ reverse-reverse t),
    )

module _ (u : Unicode) (laws : IsUnicode u) where
  read_digits-value :
      (ds : List ℕ) (n : ℕ)
      → AreDigits 10 ds
      → read_digits u (map (λ d. d + 48) ds) n ≡ ok (n * 10 ^ length ds + value 10 ds)
  unfolding read_digits next_value value
  read_digits-value [] n h = ap ok {x = n} {y = n * 10 ^ 0 + 0} (omega arith)
  read_digits-value (d ∷ ds) n (h, hs) = rw (laws.digit_value d (omega arith)) (
      read_digits-value ds (n * 10 + d) hs
      ∙ ap ok {x = (n * 10 + d) * 10 ^ length ds + value 10 ds}
          {y = n * 10 ^ suc (length ds) + (d * 10 ^ length ds + value 10 ds)}
          (rw pow-suc (omega arith)))

  all_digits_lem : (t : Str) → All IsDigit t → all_digits u t ≡ true
  unfolding all_digits
  all_digits_lem [] h = refl
  all_digits_lem (c ∷ t) ((lo, hi), hs) =
      rw (laws.ascii_digit c (omega arith), in_digits c lo hi) (all_digits_lem t hs)
    where
      in_digits : (c : ℕ) → 48 ≤ c → c ≤ 57 → (leb b'0' c && leb c b'9') ≡ true
      in_digits c lo hi = ground arith

  is_digits_lem : (t : Str) → t ≢ [] → All IsDigit t → is_digits u t ≡ true
  unfolding is_digits
  is_digits_lem [] ne h = absurd (ne refl)
  is_digits_lem (c ∷ t) ne h = all_digits_lem (c ∷ t) h

  length-map : (ds : List ℕ) → length (map (λ d. d + 48) ds) ≡ length ds
  length-map [] = refl
  length-map (d ∷ ds) = ap suc (length-map ds)

  int_of_decimal : (n : ℕ) → n < 2 ^ 31 → int_of_str u (decimal n) ≡ ok n
  unfolding int_of_str
  int_of_decimal n h =
      let numeral : Numeral n = decimal-Numeral n in
      let short : length numeral.ds ≤ 10 = numeral.size 10 (omega arith) (omega arith) in
      rw
        (
          numeral.written,
          le→ltb 4300 (length (map (λ d. d + 48) numeral.ds))
              (omega (arith, length-map numeral.ds)),
        )
        (read_digits-value numeral.ds 0 numeral.are_digits
          ∙ ap ok {x = 0 * 10 ^ length numeral.ds + value 10 numeral.ds} {y = n}
              (omega (arith, numeral.same)))

  pub decimal-IsDigit : (n : ℕ) → All IsDigit (decimal n)
  decimal-IsDigit n =
      rw (decimal-Numeral n).written
        (map-IsDigit (decimal-Numeral n).ds (decimal-Numeral n).are_digits)

  decimal-ne-nil : (n : ℕ) → decimal n ≢ []
  decimal-ne-nil n =
      rw (decimal-Numeral n).written (not_nil (decimal-Numeral n).ds (decimal-Numeral n).some_digit)

  below : (n : ℕ) → n < 2 ^ 31 → not (ltb 0x7FFFFFFF n) ≡ true
  below n h = ground arith

  -- A component in the usual notation is read as its number and its mark.
  pub parse_part-part_text :
      (n : ℕ) (hardened : Bool) (mark : ℕ)
      → is_mark mark ≡ true
      → n < 2 ^ 31
      → parse_part u (part_text n hardened mark) ≡ ok (pos n, hardened)
  unfolding parse_part
  parse_part-part_text n true mark m h =
      let (is_hard, stripped) = marked_part (decimal n) mark m (decimal-IsDigit n) in
      rw (
        stripped,
        is_hard,
        is_digits_lem (decimal n) (decimal-ne-nil n) (decimal-IsDigit n),
        int_of_decimal n h,
        below n h,
      )
  parse_part-part_text n false mark m h =
      let (is_hard, stripped) = plain_part (decimal n) (decimal-IsDigit n) in
      rw (
        stripped,
        is_hard,
        is_digits_lem (decimal n) (decimal-ne-nil n) (decimal-IsDigit n),
        int_of_decimal n h,
        below n h,
      )

  lstrip_graphic : (s : Str) → All (λ c. (33 ≤ c) × (c ≤ 126)) s → lstrip u s ≡ s
  unfolding lstrip
  lstrip_graphic [] h = refl
  lstrip_graphic (c ∷ s) ((lo, hi), _) = if_false _ _ (laws.graphic_not_space c lo hi)

  pub strip_graphic : (s : Str) → All (λ c. (33 ≤ c) × (c ≤ 126)) s → strip u s ≡ s
  unfolding strip
  strip_graphic s h =
      rw
        (
          lstrip_graphic s h,
          lstrip_graphic (reverse s) (All-reverse (λ c. (33 ≤ c) × (c ≤ 126)) s h),
        )
        (reverse-reverse s)
