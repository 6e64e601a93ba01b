-- ===== src/Base58/Decode.antt =====
-- Reading Base58, against `_b58encode` (src/keystonecrypto/derivation.py), which only writes it.
use keystone_crypto.Prelude.{
  ℕ, zero, suc, ◌+◌, ◌<◌, ◌≡◌, ◌≢◌, refl, sym, ap, ◌∙◌, List, [], ◌∷◌, ◌++◌, Option, none, some,
  reverse, reverse-reverse, replicate, ◌==◌, ==_refl, ne→==, if◌then◌else◌, arith,
}
use mathlib.Core.Path.{ap₂}
use mathlib.Core.List.{reverse-append}
use keystone_crypto.Digits.{value, value-append}
use keystone_crypto.Errors.{ok, ok-injective}
use keystone_crypto.Bytes.{Bytes, AreBytes, from_bytes, index}
use keystone_crypto.Text.{Str}
use keystone_crypto.Base58.{b58_alphabet, b58encode}
use keystone_crypto.Base58.Minimal.{
  minimal, leading_zeros-append, Stripped, stripped, value_prefix, minimal-value,
}
use keystone_crypto.Base58.RoundTrip.{
  low_value, AreLetters, IsTrimmed, leading_zeros, one_letter, b58encode-digits,
}

-- The first place of a letter, counted from `i`.
unfoldable pub find_letter : ℕ → ℕ → Bytes → Option ℕ
find_letter c i [] = none
find_letter c i (x ∷ xs) = let later = find_letter c (suc i) xs in if x == c then some i else later

abbrev cons_digit : Option ℕ → Option (List ℕ) → Option (List ℕ)
cons_digit (some d) (some ds) = some (d ∷ ds)
cons_digit _ _ = none

-- The digits of a text, or nothing if it has another letter.
unfoldable pub text_digits : Str → Option (List ℕ)
text_digits [] = some []
text_digits (c ∷ cs) = cons_digit (find_letter c 0 b58_alphabet) (text_digits cs)

abbrev pub bytes_of_digits : Option (List ℕ) → Option Bytes
bytes_of_digits none = none
bytes_of_digits (some ds) = some (replicate (leading_zeros ds) 0 ++ minimal (value 58 ds))

-- What Base58 means: a zero byte for each leading 1, and behind them the number that the digits spell.
unfoldable pub b58decode : Str → Option Bytes
unfolding text_digits
b58decode text = bytes_of_digits (text_digits text)

leading_zeros_prefix :
    (xs ys : List ℕ) → xs ≢ [] → leading_zeros xs ≡ 0 → leading_zeros (xs ++ ys) ≡ 0
leading_zeros_prefix [] ys some_digit h = absurd (some_digit refl)
leading_zeros_prefix (zero ∷ xs) ys some_digit h = absurd (omega (arith, h))
leading_zeros_prefix (suc x ∷ xs) ys some_digit h = ground arith

reverse_ne-nil : (x : ℕ) (xs : List ℕ) → reverse (x ∷ xs) ≢ []
reverse_ne-nil x xs e = not_nil (sym (reverse-reverse (x ∷ xs)) ∙ ap reverse e)
  where
    not_nil : x ∷ xs ≡ [] → ⊥
    not_nil h = cc

reverse-IsTrimmed : (ds : List ℕ) → IsTrimmed ds → leading_zeros (reverse ds) ≡ 0
reverse-IsTrimmed [] h = refl
reverse-IsTrimmed (zero ∷ []) h = absurd (omega arith)
reverse-IsTrimmed (suc d ∷ []) h = ground arith
reverse-IsTrimmed (d ∷ e ∷ ds) h =
    ap leading_zeros (reverse-append (d ∷ []) (e ∷ ds))
    ∙ leading_zeros_prefix (reverse (e ∷ ds)) (d ∷ []) (reverse_ne-nil e ds)
        (reverse-IsTrimmed (e ∷ ds) h)

value-reverse : (ds : List ℕ) → value 58 (reverse ds) ≡ low_value ds
unfolding value
value-reverse [] = refl
value-reverse (d ∷ ds) =
    ap (value 58) (reverse-append (d ∷ []) ds)
    ∙ value-append 58 (reverse ds) (d ∷ [])
    ∙ omega (arith, value-reverse ds)

reverse-replicate : (k x : ℕ) → reverse (replicate k x) ≡ replicate k x
reverse-replicate zero x = refl
reverse-replicate (suc k) x =
    reverse-append (x ∷ []) (replicate k x)
    ∙ ap (λ (t : List ℕ). t ++ x ∷ []) (reverse-replicate k x)
    ∙ snoc-replicate k
  where
    snoc-replicate : (k : ℕ) → replicate k x ++ x ∷ [] ≡ x ∷ replicate k x
    snoc-replicate zero = refl
    snoc-replicate (suc k) = ap (λ (t : List ℕ). x ∷ t) (snoc-replicate k)

abbrev AreAscending : ℕ → List ℕ → Type 0
AreAscending m [] = Unit
AreAscending m (x ∷ xs) = (m < x) × AreAscending x xs

alphabet-AreAscending : AreAscending 0 b58_alphabet
unfolding b58_alphabet
alphabet-AreAscending = ground arith

index-above : (m d c : ℕ) (xs : Bytes) → AreAscending m xs → index xs d ≡ ok c → m < c
unfolding index
index-above m d c [] h e = cc
index-above m zero c (x ∷ xs) (h, hs) e = rw (← ok-injective e) h
index-above m (suc d) c (x ∷ xs) (h, hs) e = omega (arith, h, index-above x d c xs hs e)

find_letter-index :
    (m i d c : ℕ) (xs : Bytes)
    → AreAscending m xs
    → index xs d ≡ ok c
    → find_letter c i xs ≡ some (i + d)
unfolding index find_letter
find_letter-index m i d c [] h e = cc
find_letter-index m i zero c (x ∷ xs) h e =
    rw (ok-injective e, ==_refl c) (ap some {x = i} {y = i + 0} (omega arith))
find_letter-index m i (suc d) c (x ∷ xs) (h, hs) e =
    rw (ne→== x c (below (index-above x d c xs hs e)), find_letter-index x (suc i) d c xs hs e)
      (ap some {x = suc i + d} {y = i + suc d} (omega arith))
  where
    below : x < c → x ≢ c
    below lt same = absurd (omega (arith, lt, same))

-- The places of the letters.
find_letter-alphabet :
    (d c : ℕ) → index b58_alphabet d ≡ ok c → find_letter c 0 b58_alphabet ≡ some d
find_letter-alphabet d c e =
    find_letter-index 0 0 d c b58_alphabet alphabet-AreAscending e
    ∙ ap some {x = 0 + d} {y = d} (omega arith)

text_digits-AreLetters :
    (ds : List ℕ) (letters : Bytes) → AreLetters ds letters → text_digits letters ≡ some ds
unfolding text_digits
text_digits-AreLetters [] [] h = refl
text_digits-AreLetters [] (c ∷ letters) h = absurd h
text_digits-AreLetters (d ∷ ds) [] h = absurd h
text_digits-AreLetters (d ∷ ds) (c ∷ letters) (h, hs) =
    rw (find_letter-alphabet d c h, text_digits-AreLetters ds letters hs) refl

AreLetters-append :
    (ds es : List ℕ) (xs ys : Bytes)
    → AreLetters ds xs
    → AreLetters es ys
    → AreLetters (ds ++ es) (xs ++ ys)
AreLetters-append [] es [] ys h hs = hs
AreLetters-append [] es (x ∷ xs) ys h hs = absurd h
AreLetters-append (d ∷ ds) es [] ys h hs = absurd h
AreLetters-append (d ∷ ds) es (x ∷ xs) ys (h, hr) hs = (h, AreLetters-append ds es xs ys hr hs)

AreLetters-reverse :
    (ds : List ℕ) (xs : Bytes) → AreLetters ds xs → AreLetters (reverse ds) (reverse xs)
AreLetters-reverse [] [] h = tt
AreLetters-reverse [] (x ∷ xs) h = absurd h
AreLetters-reverse (d ∷ ds) [] h = absurd h
AreLetters-reverse (d ∷ ds) (x ∷ xs) (h, hs) =
    rw (reverse-append (d ∷ []) ds, reverse-append (x ∷ []) xs)
      (AreLetters-append (reverse ds) (d ∷ []) (reverse xs) (x ∷ []) (AreLetters-reverse ds xs hs)
        (h, tt))

AreLetters-replicate : (k : ℕ) → AreLetters (replicate k 0) (replicate k b'1')
AreLetters-replicate zero = tt
AreLetters-replicate (suc k) = (one_letter, AreLetters-replicate k)

-- Zeros and digits that spell the number of some bytes stand for those bytes.
bytes_of_zeros :
    (b : Bytes) (xs : List ℕ)
    → AreBytes b
    → leading_zeros xs ≡ 0
    → value 58 xs ≡ value 256 b
    → bytes_of_digits (some (replicate (leading_zeros b) 0 ++ xs)) ≡ some b
bytes_of_zeros b xs h nonzero same =
    let z : ℕ = leading_zeros b in
    let s : Stripped b = stripped b in
    let rest_value : value 256 b ≡ value 256 s.rest =
      ap (value 256) s.same ∙ value_prefix 256 z s.rest in
    ap some (
      ap₂ (λ (k : ℕ) (n : ℕ). replicate k 0 ++ minimal n)
        (leading_zeros-append z xs ∙ omega (arith, nonzero))
        (value_prefix 58 z xs ∙ same ∙ rest_value)
      ∙ ap (λ (t : Bytes). replicate z 0 ++ t) (minimal-value s.rest (s.are_bytes h) s.nonzero)
      ∙ sym s.same)

-- Bytes that are not all zero are encoded, and decoding the text gives them back, leading zeros
-- included.
pub b58decode-b58encode :
    (b : Bytes)
    → AreBytes b
    → 0 < from_bytes b
    → (text : Str) × (b58encode b ≡ ok text) × (b58decode text ≡ some b)
unfolding b58decode
b58decode-b58encode b are_bytes positive =
    let (ds, letters, _, trimmed, same, are_letters, encoded) = b58encode-digits b positive in
    let z : ℕ = leading_zeros b in
    let all : AreLetters (ds ++ replicate z 0) (letters ++ replicate z b'1') =
      AreLetters-append ds (replicate z 0) letters (replicate z b'1') are_letters
        (AreLetters-replicate z) in
    (
      reverse (letters ++ replicate z b'1'),
      encoded,
      ap bytes_of_digits (
            text_digits-AreLetters (reverse (ds ++ replicate z 0))
              (reverse (letters ++ replicate z b'1')) (AreLetters-reverse _ _ all)
            ∙ ap some (
                reverse-append ds (replicate z 0)
                ∙ ap (λ (t : List ℕ). t ++ reverse ds) (reverse-replicate z 0)))
          ∙ bytes_of_zeros b (reverse ds) are_bytes (reverse-IsTrimmed ds trimmed)
              (value-reverse ds ∙ same),
    )
