-- ===== src/Mnemonic/Accepted/Indices.antt =====
-- The indices of words, their bits, and the words that those bits pick.
use keystone_crypto.Prelude.{
  ℕ, zero, suc, ◌*◌, ◌^◌, ◌≤◌, ◌<◌, ◌≡◌, refl, ap, ◌∙◌, List, [], ◌∷◌, ◌++◌, Option, none, some,
  length, length-append, take-append, drop-append, All-append, arith,
}
use mathlib.Core.Path.{ap₂}
use mathlib.Core.List.{flatten}
use keystone_crypto.Digits.{digits, length-digits, digits-AreDigits, value-digits_of_lt, AreDigits}
use keystone_crypto.Bits.{zfill-bin}
use keystone_crypto.Errors.{Error, Result, ok, ok-injective, >>=-eq-ok}
use keystone_crypto.Text.{Str}
use keystone_crypto.Words.{word_to_index}
use keystone_crypto.Words.Laws.{word_to_index-word_list, word_to_index-lt}
use keystone_crypto.Mnemonic.{
  traverse, pieces, index_bits, bits_of_indices, or_raise, index_of, word_for,
}
use keystone_crypto.Mnemonic.Pieces.{int_of_bits_some}

-- The dictionary's answers for words.
abbrev pub Named : List Str → List ℕ → Type 0
Named [] [] = Unit
Named (w ∷ ws) (i ∷ is) = (word_to_index w ≡ some i) × Named ws is
Named _ _ = ⊥

or_raise-eq-ok : (o : Option ℕ) (e : Error) (i : ℕ) → or_raise o e ≡ ok i → o ≡ some i
unfolding or_raise
or_raise-eq-ok none e i h = cc
or_raise-eq-ok (some j) e i h = ap some (ok-injective h)

pub traverse-Named :
    (e : Error) (ws : List Str) (is : List ℕ) → traverse (index_of e) ws ≡ ok is → Named ws is
unfolding traverse index_of
traverse-Named e [] is h = rw (← ok-injective h) tt
traverse-Named e (w ∷ ws) is h =
    let (i, found, h1) = >>=-eq-ok (index_of e w) _ h in
    let (js, rest, last) = >>=-eq-ok (traverse (index_of e) ws) _ h1 in
    rw (← ok-injective last)
      (or_raise-eq-ok (word_to_index w) e i found, traverse-Named e ws js rest)

pub Named-traverse :
    (e : Error) (ws : List Str) (is : List ℕ) → Named ws is → traverse (index_of e) ws ≡ ok is
unfolding traverse index_of or_raise
Named-traverse e [] [] h = refl
Named-traverse e (w ∷ ws) (i ∷ is) (h, hs) = rw (h, Named-traverse e ws is hs)
Named-traverse e [] (i ∷ is) h = absurd h
Named-traverse e (w ∷ ws) [] h = absurd h

pub length-Named : (ws : List Str) (is : List ℕ) → Named ws is → length is ≡ length ws
length-Named [] [] h = refl
length-Named (w ∷ ws) (i ∷ is) (h, hs) = ap suc (length-Named ws is hs)
length-Named [] (i ∷ is) h = absurd h
length-Named (w ∷ ws) [] h = absurd h

index_bits-digits : (w : Str) (i : ℕ) → word_to_index w ≡ some i → index_bits i ≡ digits 2 11 i
index_bits-digits w i h = zfill-bin 11 i (omega arith) (omega (arith, word_to_index-lt w i h))

length-index_bits : (w : Str) (i : ℕ) → word_to_index w ≡ some i → length (index_bits i) ≡ 11
length-index_bits w i h = ap length (index_bits-digits w i h) ∙ length-digits 2 11 i

pub length-bits_of_indices :
    (ws : List Str) (is : List ℕ) → Named ws is → length (bits_of_indices is) ≡ 11 * length ws
unfolding flatten
length-bits_of_indices [] [] h = refl
length-bits_of_indices (w ∷ ws) (i ∷ is) (h, hs) =
    length-append (index_bits i) (bits_of_indices is)
    ∙ omega (arith, length-index_bits w i h, length-bits_of_indices ws is hs)
length-bits_of_indices [] (i ∷ is) h = absurd h
length-bits_of_indices (w ∷ ws) [] h = absurd h

pub bits_of_indices-AreDigits :
    (ws : List Str) (is : List ℕ) → Named ws is → AreDigits 2 (bits_of_indices is)
unfolding flatten
bits_of_indices-AreDigits [] [] h = tt
bits_of_indices-AreDigits (w ∷ ws) (i ∷ is) (h, hs) =
    All-append (λ d. d < 2) (index_bits i) (bits_of_indices is)
      (rw (index_bits-digits w i h) (digits-AreDigits 2 11 i (omega arith)))
      (bits_of_indices-AreDigits ws is hs)
bits_of_indices-AreDigits [] (i ∷ is) h = absurd h
bits_of_indices-AreDigits (w ∷ ws) [] h = absurd h

pieces-append :
    (rounds : ℕ) (c rest : List ℕ)
    → length c ≡ 11
    → pieces (suc rounds) (c ++ rest) ≡ c ∷ pieces rounds rest
unfolding pieces
pieces-append rounds [] rest h = absurd (omega arith)
pieces-append rounds (b ∷ c) rest h =
    ap₂ ◌∷◌ (take-append 11 (b ∷ c) rest h) (ap (pieces rounds) (drop-append 11 (b ∷ c) rest h))

-- The bits of an index pick its word.
word_for-index_bits : (w : Str) (i : ℕ) → word_to_index w ≡ some i → word_for (index_bits i) ≡ ok w
unfolding word_for or_raise
word_for-index_bits w i h =
    let small : i < 2 ^ 11 = omega (arith, word_to_index-lt w i h) in
    rw (
      int_of_bits_some (index_bits i) (omega (arith, length-index_bits w i h)),
      index_bits-digits w i h,
      value-digits_of_lt 2 11 i (omega arith) small,
      (word_to_index-word_list i w).0 h,
    )

traverse-cons :
    {A B : Type 0} (f : A → Result B) (x : A) (xs : List A) {y : B} {ys : List B}
    → f x ≡ ok y
    → traverse f xs ≡ ok ys
    → traverse f (x ∷ xs) ≡ ok (y ∷ ys)
unfolding traverse
traverse-cons f x xs h hs = rw (h, hs)

no_pieces : (rounds : ℕ) → traverse word_for (pieces rounds []) ≡ ok []
unfolding pieces traverse
no_pieces zero = refl
no_pieces (suc rounds) = refl

pub words_of_bits :
    (rounds : ℕ) (ws : List Str) (is : List ℕ)
    → Named ws is
    → length ws ≤ rounds
    → traverse word_for (pieces rounds (bits_of_indices is)) ≡ ok ws
unfolding flatten
words_of_bits rounds [] [] h le = no_pieces rounds
words_of_bits zero (w ∷ ws) (i ∷ is) h le = absurd (omega arith)
words_of_bits (suc rounds) (w ∷ ws) (i ∷ is) (h, hs) le =
    ap (traverse word_for)
      (pieces-append rounds (index_bits i) (bits_of_indices is) (length-index_bits w i h))
    ∙ traverse-cons word_for (index_bits i) (pieces rounds (bits_of_indices is))
        (word_for-index_bits w i h) (words_of_bits rounds ws is hs (omega arith))
words_of_bits rounds [] (i ∷ is) h le = absurd h
words_of_bits rounds (w ∷ ws) [] h le = absurd h
