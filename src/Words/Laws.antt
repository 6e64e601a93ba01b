-- ===== src/Words/Laws.antt =====
-- `_ENGLISH_WORDLIST` and `_WORD_TO_INDEX` (src/keystonecrypto/mnemonic.py).
use keystone_crypto.Prelude.{
  ℕ, zero, suc, ◌+◌, ◌<◌, ◌≡◌, ◌≢◌, refl, sym, ap, ◌∙◌, List, [], ◌∷◌, Bool, true, false, none,
  some, get_elem?, length, arith, inl, inr, Option-cases, some_inj,
}
use mathlib.Core.Path.{subst}
use mathlib.Core.Logic.{◌↔◌}
use keystone_crypto.Text.{Str}
use keystone_crypto.Bytes.{equal, equal_refl, equal→eq}
use keystone_crypto.Words.{
  word_list, first_of, find_index, word_to_index, rank, is_lower, ascending, ascending_table,
  length_table,
}

ascending-cons :
    (m : ℕ) (x : Str) (ws : List Str)
    → ascending m (x ∷ ws) ≡ true
    → (m < rank 8 x) × (is_lower x ≡ true) × (ascending (rank 8 x) ws ≡ true)
unfolding ascending
ascending-cons m x ws h = ground arith

-- Ranks grow along the list, so a later word differs from an earlier one.
rank_grows :
    (m i : ℕ) (ws : List Str) (w : Str)
    → ascending m ws ≡ true
    → get_elem? ws i ≡ some w
    → m < rank 8 w
rank_grows m i [] w h e = cc
rank_grows m zero (x ∷ ws) w h e =
    let same : x ≡ w = some_inj e in rw (← same) (ascending-cons m x ws h).0
rank_grows m (suc i) (x ∷ ws) w h e =
    let (lt, _, up) = ascending-cons m x ws h in omega (arith, rank_grows (rank 8 x) i ws w up e)

-- What the dictionary answers is a position of the word.
find_index_sound :
    (i j : ℕ) (ws : List Str) (w : Str)
    → find_index w i ws ≡ some j
    → (k : ℕ) × (j ≡ i + k) × (get_elem? ws k ≡ some w)
unfolding find_index
find_index_sound i j [] w e = cc
find_index_sound i j (x ∷ ws) w e = elim (Option-cases (find_index w (suc i) ws)) [
  | inl absent ↦ here (equal x w) refl (rw absent at e)
  | inr (l, later) ↦
      let (k, el, at) = find_index_sound (suc i) l ws w later in
      let same : l ≡ j = some_inj (rw later at e) in (suc k, omega arith, at)
]
  where
    here :
        (b : Bool)
        → equal x w ≡ b
        → first_of none b i ≡ some j
        → (k : ℕ) × (j ≡ i + k) × (get_elem? (x ∷ ws) k ≡ some w)
    here true same h = (0, sym (some_inj h) ∙ omega arith, ap some (equal→eq x w same))
    here false differ h = cc

find_index-get_elem? :
    (m i k : ℕ) (ws : List Str) (w : Str)
    → ascending m ws ≡ true
    → get_elem? ws k ≡ some w
    → find_index w i ws ≡ some (i + k)
unfolding find_index
find_index-get_elem? m i k [] w h e = cc
find_index-get_elem? m i zero (x ∷ ws) w h e =
    let (_, _, up) = ascending-cons m x ws h in
    let same : x ≡ w = some_inj e in
    elim (Option-cases (find_index w (suc i) ws)) [
      | inl absent ↦ rw (absent, same, equal_refl w) (ap some {x = i} {y = i + 0} (omega arith))
      | inr (l, later) ↦
          let (k, _, at) = find_index_sound (suc i) l ws w later in
          absurd (omega (arith, rank_grows (rank 8 x) k ws w up at, ap (rank 8) same))
    ]
find_index-get_elem? m i (suc k) (x ∷ ws) w h e =
    let (_, _, up) = ascending-cons m x ws h in
    rw (find_index-get_elem? (rank 8 x) (suc i) k ws w up e)
      (ap some {x = suc i + k} {y = i + suc k} (omega arith))

-- The dictionary answers a position exactly for the word that stands there.
pub word_to_index-word_list :
    (i : ℕ) (w : Str) → (word_to_index w ≡ some i) ↔ (get_elem? word_list i ≡ some w)
unfolding word_to_index
word_to_index-word_list i w = (to, from)
  where
    to : find_index w 0 word_list ≡ some i → get_elem? word_list i ≡ some w
    to e =
        let (k, same, at) = find_index_sound 0 i word_list w e in
        let eq : k ≡ i = omega arith in subst (λ (t : ℕ). get_elem? word_list t ≡ some w) eq at

    from : get_elem? word_list i ≡ some w → find_index w 0 word_list ≡ some i
    from e =
        find_index-get_elem? 0 0 i word_list w ascending_table e
        ∙ ap some {x = 0 + i} {y = i} (omega arith)

get_elem?_of_lt {ℓ} :
    {A : Type ℓ} (xs : List A) (i : ℕ) → i < length xs → (a : A) × (get_elem? xs i ≡ some a)
get_elem?_of_lt [] i h = absurd (omega arith)
get_elem?_of_lt (x ∷ xs) zero h = (x, refl)
get_elem?_of_lt (x ∷ xs) (suc i) h = get_elem?_of_lt xs i (omega arith)

lt_of_get_elem? {ℓ} :
    {A : Type ℓ} (xs : List A) (i : ℕ) (a : A) → get_elem? xs i ≡ some a → i < length xs
lt_of_get_elem? [] i a h = cc
lt_of_get_elem? (x ∷ xs) zero a h = omega arith
lt_of_get_elem? (x ∷ xs) (suc i) a h = omega (arith, lt_of_get_elem? xs i a h)

-- There is a word at each index of eleven bits.
pub word_at : (i : ℕ) → i < 2048 → (w : Str) × (get_elem? word_list i ≡ some w)
word_at i h = get_elem?_of_lt word_list i (rw length_table h)

pub word_to_index-lt : (w : Str) (i : ℕ) → word_to_index w ≡ some i → i < 2048
word_to_index-lt w i e =
    rw length_table at (lt_of_get_elem? word_list i w ((word_to_index-word_list i w).0 e))

is_lower_at :
    (m i : ℕ) (ws : List Str) (w : Str)
    → ascending m ws ≡ true
    → get_elem? ws i ≡ some w
    → (is_lower w ≡ true) × (w ≢ [])
unfolding rank
is_lower_at m i [] w h e = cc
is_lower_at m zero (x ∷ ws) w h e =
    let (lt, lower, _) = ascending-cons m x ws h in
    let same : x ≡ w = some_inj e in
    rw (← same) (lower, λ nil. absurd (omega (arith, lt, ap (rank 8) nil)))
is_lower_at m (suc i) (x ∷ ws) w h e =
    let (_, _, up) = ascending-cons m x ws h in is_lower_at (rank 8 x) i ws w up e

-- Every word is not empty and has lower-case letters only.
pub word_shape : (w : Str) (i : ℕ) → get_elem? word_list i ≡ some w → (is_lower w ≡ true) × (w ≢ [])
word_shape w i e = is_lower_at 0 i word_list w ascending_table e
