-- ===== src/Derivation/Parse/Path.antt =====
-- `DerivationPath.parse` (src/keystonecrypto/derivation.py) on paths in the usual notation.
use keystone_crypto.Prelude.{
  sym, reverse, reverse-snoc, ℕ, ◌^◌, ◌≤◌, ◌<◌, ◌≡◌, refl, ap, ◌∙◌, List, [], ◌∷◌, ◌++◌, Bool, true,
  false, ◌==◌, All, All-append, ◌⊎◌, arith,
}
use mathlib.Core.List.{append-nil}
use keystone_crypto.Errors.{ok, if_true}
use keystone_crypto.Bytes.{ℤ, pos, equal}
use keystone_crypto.Text.{Str, decimal}
use keystone_crypto.Unicode.{Unicode, IsUnicode, strip}
use keystone_crypto.Mnemonic.{traverse}
use keystone_crypto.Derivation.{
  is_hardened, rstrip_marks, starts_marked, drop_marks, cons_char, is_mark, split_at, parse_part,
  starts_with_m, parse,
}
use keystone_crypto.Derivation.Parse.Notation.{
  part_text, decimal-IsDigit, parse_part-part_text, strip_graphic,
}

-- `/` in front of each part
abbrev pub slashes : List Str → Str
slashes [] = []
slashes (p ∷ ps) = b'/' ∷ (p ++ slashes ps)

abbrev pub parts_of : ℕ → List (ℕ × Bool) → List Str
parts_of mark [] = []
parts_of mark ((n, hardened) ∷ ixs) = part_text n hardened mark ∷ parts_of mark ixs

-- `m/44'/0'/0`: the usual notation of a path, with the same mark for each hardened index.
abbrev pub path_text : ℕ → List (ℕ × Bool) → Str
path_text mark ixs = b'm' ∷ slashes (parts_of mark ixs)

abbrev pub path_of : List (ℕ × Bool) → List (ℤ × Bool)
path_of [] = []
path_of ((n, hardened) ∷ ixs) = (pos n, hardened) ∷ path_of ixs

abbrev pub AreIndices : List (ℕ × Bool) → Type 0
AreIndices = All (λ ix. ix.0 < 2 ^ 31)

abbrev NoSlash : Str → Type 0
NoSlash = All (λ c. (c == b'/') ≡ false)

split_at-slash :
    (p rest : Str) → NoSlash p → split_at b'/' (p ++ b'/' ∷ rest) ≡ p ∷ split_at b'/' rest
unfolding split_at cons_char
split_at-slash [] rest h = refl
split_at-slash (c ∷ p) rest (hc, hs) = rw (hc, split_at-slash p rest hs) refl

split_at-last : (p : Str) → NoSlash p → split_at b'/' p ≡ p ∷ []
unfolding split_at cons_char
split_at-last [] h = refl
split_at-last (c ∷ p) (hc, hs) = rw (hc, split_at-last p hs) refl

split_at-slashes :
    (p : Str) (ps : List Str)
    → NoSlash p
    → All NoSlash ps
    → split_at b'/' (p ++ slashes ps) ≡ p ∷ ps
split_at-slashes p [] h hs = ap (split_at b'/') (append-nil p) ∙ split_at-last p h
split_at-slashes p (q ∷ ps) h (hq, hs) =
    split_at-slash p (q ++ slashes ps) h
    ∙ ap (λ (t : List Str). p ∷ t) (split_at-slashes q ps hq hs)

-- A character of a component: no slash, and visible.
abbrev IsPartChar : ℕ → Type 0
IsPartChar c = ((c == b'/') ≡ false) × (33 ≤ c) × (c ≤ 126)

All-imp : (P Q : ℕ → Type 0) (s : Str) → ((c : ℕ) → P c → Q c) → All P s → All Q s
All-imp P Q [] f h = tt
All-imp P Q (c ∷ s) f (h, hs) = (f c h, All-imp P Q s f hs)

digit-IsPartChar : (c : ℕ) → (48 ≤ c) × (c ≤ 57) → IsPartChar c
digit-IsPartChar c (lo, hi) = (ground arith, omega arith, omega arith)

mark-IsPartChar : (c : ℕ) → is_mark c ≡ true → IsPartChar c
unfolding is_mark
mark-IsPartChar c h = ground arith

mark_lem : (c : ℕ) → (c ≡ b'\'') ⊎ (c ≡ b'h') → is_mark c ≡ true
unfolding is_mark
mark_lem c h = ground arith

module _ (u : Unicode) (laws : IsUnicode u) (mark : ℕ) (is_a_mark : is_mark mark ≡ true) where
  decimal_chars : (n : ℕ) → All IsPartChar (decimal n)
  decimal_chars n =
      All-imp (λ c. (48 ≤ c) × (c ≤ 57)) IsPartChar (decimal n) digit-IsPartChar
        (decimal-IsDigit u laws n)

  part_chars : (n : ℕ) (hardened : Bool) → All IsPartChar (part_text n hardened mark)
  part_chars n true =
      All-append IsPartChar (decimal n) (mark ∷ []) (decimal_chars n)
        (mark-IsPartChar mark is_a_mark, tt)
  part_chars n false = decimal_chars n

  parts_chars : (ixs : List (ℕ × Bool)) → All (All IsPartChar) (parts_of mark ixs)
  parts_chars [] = tt
  parts_chars ((n, hardened) ∷ ixs) = (part_chars n hardened, parts_chars ixs)

  no_slashes : (ps : List Str) → All (All IsPartChar) ps → All NoSlash ps
  no_slashes [] h = tt
  no_slashes (p ∷ ps) (h, hs) =
      (All-imp IsPartChar (λ c. (c == b'/') ≡ false) p (λ c x. x.0) h, no_slashes ps hs)

  slashes_graphic :
      (ps : List Str) → All (All IsPartChar) ps → All (λ c. (33 ≤ c) × (c ≤ 126)) (slashes ps)
  slashes_graphic [] h = tt
  slashes_graphic (p ∷ ps) (h, hs) = (
    (omega arith, omega arith),
    All-append (λ c. (33 ≤ c) × (c ≤ 126)) p (slashes ps)
        (All-imp IsPartChar (λ c. (33 ≤ c) × (c ≤ 126)) p (λ c (_, lo, hi). (lo, hi)) h)
        (slashes_graphic ps hs),
  )

  traverse-parts_of :
      (ixs : List (ℕ × Bool))
      → AreIndices ixs
      → traverse (parse_part u) (parts_of mark ixs) ≡ ok (path_of ixs)
  unfolding traverse
  traverse-parts_of [] h = refl
  traverse-parts_of ((n, hardened) ∷ ixs) (h, hs) =
      rw (parse_part-part_text u laws n hardened mark is_a_mark h, traverse-parts_of ixs hs)

  strip-path_text : (ixs : List (ℕ × Bool)) → strip u (path_text mark ixs) ≡ path_text mark ixs
  strip-path_text ixs =
      strip_graphic u laws (path_text mark ixs)
        ((omega arith, omega arith), slashes_graphic (parts_of mark ixs) (parts_chars ixs))

  split_parts :
      (n : ℕ) (hardened : Bool) (ixs : List (ℕ × Bool))
      → split_at b'/' (part_text n hardened mark ++ slashes (parts_of mark ixs))
        ≡ part_text n hardened mark ∷ parts_of mark ixs
  split_parts n hardened ixs =
      let (h, hs) =
        no_slashes (parts_of mark ((n, hardened) ∷ ixs)) (parts_chars ((n, hardened) ∷ ixs)) in
      split_at-slashes (part_text n hardened mark) (parts_of mark ixs) h hs

  parse_lem :
      (ixs : List (ℕ × Bool))
      → AreIndices ixs
      → parse u (path_text mark ixs) ≡ ok (record { indices = path_of ixs })
  unfolding parse equal starts_with_m
  parse_lem [] h = rw (strip-path_text []) refl
  parse_lem ((n, hardened) ∷ ixs) h =
      rw
        (
          strip-path_text ((n, hardened) ∷ ixs),
          split_parts n hardened ixs,
          traverse-parts_of ((n, hardened) ∷ ixs) h,
        )
        refl

-- The usual notation of a path whose indices are below 2 ^ 31, written with the mark `'` or the mark
-- `h`, is read as that path, with Unicode tables that follow the standard.
pub parse-path_text :
    (u : Unicode)
    → IsUnicode u
    → (mark : ℕ) → (mark ≡ b'\'') ⊎ (mark ≡ b'h')
    → (ixs : List (ℕ × Bool)) → AreIndices ixs
    → parse u (path_text mark ixs) ≡ ok (record { indices = path_of ixs })
parse-path_text u laws mark m ixs h = parse_lem u laws mark (mark_lem mark m) ixs h

marked_twice :
    (part : Str) (a b : ℕ)
    → is_mark a ≡ true
    → is_mark b ≡ true
    → (is_hardened ((part ++ a ∷ []) ++ b ∷ []) ≡ is_hardened (part ++ a ∷ []))
      × (rstrip_marks ((part ++ a ∷ []) ++ b ∷ []) ≡ rstrip_marks (part ++ a ∷ []))
unfolding is_hardened rstrip_marks starts_marked drop_marks
marked_twice part a b ha hb =
    rw (reverse-snoc (part ++ a ∷ []) b, reverse-snoc part a)
      (hb ∙ sym ha, ap reverse (if_true _ _ hb))

-- A second mark behind the first one changes nothing: `0''` and `0'h` are read like `0'`.
pub parse_part_marks :
    (u : Unicode) (part : Str) (a b : ℕ)
    → (a ≡ b'\'') ⊎ (a ≡ b'h')
    → (b ≡ b'\'') ⊎ (b ≡ b'h')
    → parse_part u ((part ++ a ∷ []) ++ b ∷ []) ≡ parse_part u (part ++ a ∷ [])
unfolding parse_part
parse_part_marks u part a b ha hb =
    let (same_mark, same_number) = marked_twice part a b (mark_lem a ha) (mark_lem b hb) in
    rw (same_mark, same_number) refl
