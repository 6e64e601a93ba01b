-- ===== src/Words.antt =====
-- src/keystonecrypto/mnemonic.py: `_WORD_TO_INDEX`, and the words by their positions.
pub mod Laws
use keystone_crypto.Prelude.{
  ℕ, zero, suc, ◌+◌, ◌-◌, ◌*◌, ◌^◌, List, [], ◌∷◌, map, Bool, true, false, ◌&&◌, Option, none, some,
  get_elem?, ltb, leb, if◌then◌else◌, length, ◌==◌, ◌≡◌, refl,
}
use keystone_crypto.Text.{Str, codes}
use keystone_crypto.Bytes.{equal}
use keystone_crypto.Wordlist.{english_wordlist}

-- The words as lists of code points.
unfoldable pub word_list : List Str
unfolding english_wordlist
word_list = map codes english_wordlist

unfoldable pub first_of : Option ℕ → Bool → ℕ → Option ℕ
first_of (some j) here i = some j
first_of none true i = some i
first_of none false i = none

-- `{w: i for i, w in enumerate(words)}`, looked up: a later position wins over an earlier one.
unfoldable pub find_index : Str → ℕ → List Str → Option ℕ
unfolding first_of
find_index w i [] = none
find_index w i (x ∷ xs) = first_of (find_index w (suc i) xs) (equal x w) i

-- `_WORD_TO_INDEX.get(w)`
unfoldable pub word_to_index : Str → Option ℕ
word_to_index w = find_index w 0 word_list

-- A word's place in the alphabetic order of words of at most `k` letters.
rank : ℕ → Str → ℕ
rank zero s = 0
rank (suc k) [] = 0
rank (suc k) (c ∷ s) = (c - 96) * 27 ^ k + rank k s

unfoldable pub is_lower : Str → Bool
is_lower [] = true
is_lower (c ∷ s) = leb b'a' c && leb c b'z' && is_lower s

ascending : ℕ → List Str → Bool
ascending m [] = true
ascending m (w ∷ ws) = ltb m (rank 8 w) && is_lower w && ascending (rank 8 w) ws

ascending_table : ascending 0 word_list ≡ true
unfolding ascending word_list rank is_lower
ascending_table = refl

length_table : length word_list ≡ 2048
unfolding word_list
length_table = refl
