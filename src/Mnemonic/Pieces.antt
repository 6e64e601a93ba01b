-- ===== src/Mnemonic/Pieces.antt =====
-- Cutting the bits into pieces of eleven, and joining the indices of the words again.
use keystone_crypto.Prelude.{
  ℕ, zero, suc, ◌*◌, ◌^◌, ◌≤◌, ◌<◌, ◌≡◌, ◌≢◌, refl, sym, ap, ◌∙◌, List, [], ◌∷◌, ◌++◌, true, length,
  take, drop, length-take, length-drop, take-append-drop, All, All-take, All-drop, arith,
}
use mathlib.Core.Path.{ap₂}
use mathlib.Core.List.{flatten}
use keystone_crypto.Digits.{value, digits, value-lt, digits-value, AreDigits}
use keystone_crypto.Bits.{zfill-bin}
use keystone_crypto.Errors.{Error, ok}
use keystone_crypto.Text.{Str}
use keystone_crypto.Words.{is_lower}
use keystone_crypto.Words.Laws.{word_at, word_to_index-word_list, word_shape}
use keystone_crypto.Mnemonic.{
  traverse, pieces, int_of_bits, index_bits, bits_of_indices, index_of, word_for,
}

-- The index of a piece is written back as the same eleven bits.
index_bits-value : (c : List ℕ) → length c ≡ 11 → AreDigits 2 c → index_bits (value 2 c) ≡ c
index_bits-value c h hs =
    let small : value 2 c < 2 ^ length c = value-lt 2 c hs in
    zfill-bin 11 (value 2 c) (omega arith) (omega (arith, ap (λ (n : ℕ). 2 ^ n) h))
    ∙ ap (λ (n : ℕ). digits 2 n (value 2 c)) (sym h)
    ∙ digits-value 2 c (omega arith) hs

pub int_of_bits_some : (c : List ℕ) → 0 < length c → int_of_bits c ≡ ok (value 2 c)
unfolding int_of_bits
int_of_bits_some [] h = absurd (omega arith)
int_of_bits_some (b ∷ c) h = refl

abbrev pub IsWord : Str → Type 0
IsWord w = (is_lower w ≡ true) × (w ≢ [])

-- A piece of eleven bits picks a word, and the dictionary gives the piece's number back.
word_for_piece :
    (c : List ℕ)
    → length c ≡ 11
    → AreDigits 2 c
    → (w : Str) × (word_for c ≡ ok w) × ((e : Error) → index_of e w ≡ ok (value 2 c)) × IsWord w
unfolding word_for index_of
word_for_piece c h hs =
    let small : value 2 c < 2 ^ length c = value-lt 2 c hs in
    let (w, at) = word_at (value 2 c) (omega (arith, ap (λ (n : ℕ). 2 ^ n) h)) in
    (
      w,
      rw (int_of_bits_some c (omega arith), at),
      λ e. rw ((word_to_index-word_list (value 2 c) w).1 at),
      word_shape w (value 2 c) at,
    )

-- What the words of the bits `bits` are, and that their indices spell those bits again.
pub record Spells (bits : List ℕ) (rounds n : ℕ) : Type 0 where
  pub words : List Str
  pub indices : List ℕ
  pub words_found : traverse word_for (pieces rounds bits) ≡ ok words
  pub indices_found : (e : Error) → traverse (index_of e) words ≡ ok indices
  pub same_bits : bits_of_indices indices ≡ bits
  pub count : length words ≡ n
  pub are_words : All IsWord words

no_words : Spells [] 0 0
unfolding traverse pieces flatten
no_words = record {
  words = [];
  indices = [];
  words_found = refl;
  indices_found = λ e. refl;
  same_bits = refl;
  count = refl;
  are_words = tt;
}

no_words_more : (rounds : ℕ) → Spells [] (suc rounds) 0
unfolding traverse pieces flatten
no_words_more rounds = record {
  words = [];
  indices = [];
  words_found = refl;
  indices_found = λ e. refl;
  same_bits = refl;
  count = refl;
  are_words = tt;
}

-- A whole number of pieces spells words.
pub pieces-Spells :
    (n rounds : ℕ) (bits : List ℕ)
    → length bits ≡ 11 * n
    → length bits ≤ rounds
    → AreDigits 2 bits
    → Spells bits rounds n
unfolding traverse pieces flatten
pieces-Spells zero zero [] h hr hs = no_words
pieces-Spells zero (suc rounds) [] h hr hs = no_words_more rounds
pieces-Spells zero rounds (b ∷ bits) h hr hs = absurd (omega arith)
pieces-Spells (suc n) rounds [] h hr hs = absurd (omega arith)
pieces-Spells (suc n) zero (b ∷ bits) h hr hs = absurd (omega arith)
pieces-Spells (suc n) (suc rounds) (b ∷ bits) h hr hs =
    let whole : List ℕ = b ∷ bits in
    let c : List ℕ = take 11 whole in
    let c_length : length c ≡ 11 = length-take 11 whole ∙ omega arith in
    let (w, found, index, shape) = word_for_piece c c_length (All-take (λ d. d < 2) 11 whole hs) in
    let rest : Spells (drop 11 whole) rounds n =
      pieces-Spells n rounds (drop 11 whole) (length-drop 11 whole ∙ omega arith)
        (omega (arith, length-drop 11 whole)) (All-drop (λ d. d < 2) 11 whole hs) in
    record {
      words = w ∷ rest.words;
      indices = value 2 c ∷ rest.indices;
      words_found = rw (found, rest.words_found);
      indices_found = λ e. rw (index e, rest.indices_found e);
      same_bits =
          ap₂ ◌++◌ (index_bits-value c c_length (All-take (λ d. d < 2) 11 whole hs)) rest.same_bits
          ∙ take-append-drop 11 whole;
      count = ap suc rest.count;
      are_words = (shape, rest.are_words);
    }
