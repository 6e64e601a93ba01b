-- ===== src/Unicode.antt =====
-- What the modules use of Python's text type: the Unicode tables are a parameter, and the methods
-- `split`, `strip`, `join` and `encode("utf-8")` are written out.
pub mod Split
use keystone_crypto.Prelude.{
  ℕ, zero, suc, ◌+◌, ◌-◌, ◌*◌, ◌/◌, ◌%◌, ◌≤◌, ◌<◌, ◌≡◌, List, [], ◌∷◌, ◌++◌, Bool, true, false,
  ◌&&◌, Option, none, some, ltb, leb, ◌==◌, if◌then◌else◌, All, map, reverse,
}
use keystone_crypto.Errors.{Error, Result, ok, err, ◌>>=◌}
use keystone_crypto.Bytes.{Bytes}
use keystone_crypto.Text.{Str}

-- `c.isspace()`, `c.isdigit()`, the decimal value of `c` that `int` reads, and NFKD normalisation.
pub record Unicode : Type 0 where
  pub is_space : ℕ → Bool
  pub is_digit : ℕ → Bool
  pub decimal_value : ℕ → Option ℕ
  pub nfkd : Str → Str

abbrev pub IsAscii : Str → Type 0
IsAscii = All (λ c. c < 128)

-- What the Unicode standard fixes for ASCII.
pub record IsUnicode (u : Unicode) : Type 0 where
  pub space_is_space : u.is_space 32 ≡ true
  pub graphic_not_space : (c : ℕ) → 33 ≤ c → c ≤ 126 → u.is_space c ≡ false
  pub digit_value : (d : ℕ) → d ≤ 9 → u.decimal_value (d + 48) ≡ some d
  pub ascii_digit : (c : ℕ) → c < 128 → u.is_digit c ≡ (leb b'0' c && leb c b'9')
  pub nfkd_ascii : (s : Str) → IsAscii s → u.nfkd s ≡ s

emit : Str → List Str → List Str
emit [] ws = ws
emit (c ∷ word) ws = (c ∷ word) ∷ ws

module _ (u : Unicode) where
  -- `s.split()`; the first argument is the word read so far.
  unfoldable pub split_from : Str → Str → List Str
  unfolding emit
  split_from word [] = emit word []
  split_from word (c ∷ s) =
      let next = emit word (split_from [] s) in
      let more = split_from (word ++ c ∷ []) s in if u.is_space c then next else more

  unfoldable pub split : Str → List Str
  split s = split_from [] s

  unfoldable pub lstrip : Str → Str
  lstrip [] = []
  lstrip (c ∷ s) = if u.is_space c then lstrip s else c ∷ s

  -- `s.strip()`
  unfoldable pub strip : Str → Str
  strip s = reverse (lstrip (reverse (lstrip s)))

-- `" ".join(ws)`
unfoldable pub join : List Str → Str
join [] = []
join (w ∷ []) = w
join (w ∷ v ∷ ws) = w ++ 32 ∷ join (v ∷ ws)

unfoldable pub utf8_char : ℕ → Result Bytes
utf8_char c =
    if ltb c 0x80
    then ok (c ∷ [])
    else if ltb c 0x800
    then ok ((0xc0 + c / 64) ∷ (0x80 + c % 64) ∷ [])
    else if leb 0xd800 c && leb c 0xdfff
    then err Error.value_error
    else if ltb c 0x10000
    then ok ((0xe0 + c / 4096) ∷ (0x80 + c / 64 % 64) ∷ (0x80 + c % 64) ∷ [])
    else ok
        ((0xf0 + c / 262144) ∷ (0x80 + c / 4096 % 64) ∷ (0x80 + c / 64 % 64) ∷ (0x80 + c % 64) ∷ [])

-- `s.encode("utf-8")`; a surrogate raises `UnicodeEncodeError`, a `ValueError`.
unfoldable pub encode_utf8 : Str → Result Bytes
unfolding utf8_char
encode_utf8 [] = ok []
encode_utf8 (c ∷ s) = do b ← utf8_char c; bs ← encode_utf8 s; ok (b ++ bs)
