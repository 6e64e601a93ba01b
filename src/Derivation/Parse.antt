-- ===== src/Derivation/Parse.antt =====
-- `DerivationPath.parse` (src/keystonecrypto/derivation.py): the paths it accepts.
pub mod Notation
pub mod Path
pub mod Raised
use keystone_crypto.Prelude.{
  ℕ, ◌+◌, ◌^◌, ◌≤◌, ◌<◌, ◌≡◌, refl, sym, ap, ◌∙◌, List, [], ◌∷◌, ◌++◌, Bool, true, false, ◌||◌, not,
  length, drop, ltb, ◌==◌, if◌then◌else◌, All, Bool-cases, inl, inr, arith,
}
use keystone_crypto.Errors.{
  Error, Result, ok, err, ok-injective, ◌>>=◌, ◌>>◌, require, >>=-eq-ok, unless-eq-ok,
  require-eq-ok,
}
use keystone_crypto.Bytes.{ℤ, pos, negsuc, equal}
use keystone_crypto.Text.{Str, codes}
use keystone_crypto.Unicode.{Unicode, strip}
use keystone_crypto.Mnemonic.{traverse}
use keystone_crypto.Derivation.{
  DerivationPath, is_hardened, rstrip_marks, is_digits, int_of_str, parse_part, split_at,
  starts_with_m, parse,
}

-- An index that `derive` takes.
abbrev pub IsIndex : ℤ × Bool → Type 0
IsIndex (i, hardened) = (n : ℕ) × (i ≡ pos n) × (n < 2 ^ 31)

parse_part-IsIndex :
    (u : Unicode) (part : Str) (x : ℤ × Bool)
    → parse_part u part ≡ ok x
    → IsIndex x × (x.1 ≡ is_hardened part)
unfolding parse_part
parse_part-IsIndex u part x e =
    let (_, e1) = require-eq-ok (is_digits u (rstrip_marks part)) _ _ e in
    let (n, _, e2) = >>=-eq-ok (int_of_str u (rstrip_marks part)) _ e1 in
    let (small, last) = require-eq-ok (not (ltb 0x7FFFFFFF n)) _ _ e2 in
    let same : (pos n, is_hardened part) ≡ x = ok-injective last in
    rw (← same) ((n, refl, in_range n small), refl)
  where
    in_range : (n : ℕ) → not (ltb 0x7FFFFFFF n) ≡ true → n < 2 ^ 31
    in_range n h = ground arith

traverse-All :
    {A B : Type 0} (P : B → Type 0) (f : A → Result B) (xs : List A) (ys : List B)
    → ((a : A) (b : B) → f a ≡ ok b → P b)
    → traverse f xs ≡ ok ys
    → All P ys
unfolding traverse
traverse-All P f [] ys h e = rw (← ok-injective e) tt
traverse-All P f (x ∷ xs) ys h e =
    let (y, hy, e1) = >>=-eq-ok (f x) _ e in
    let (rest, hr, last) = >>=-eq-ok (traverse f xs) _ e1 in
    rw (← ok-injective last) (h x y hy, traverse-All P f xs rest h hr)

nil-IsIndex : (p : DerivationPath) → ok (record { indices = [] }) ≡ ok p → All IsIndex p.indices
nil-IsIndex p e = rw (← ok-injective e) tt

-- Every index of a path that `parse` returns is from 0 to 2 ^ 31 - 1.
pub parse-IsIndex :
    (u : Unicode) (text : Str) (p : DerivationPath) → parse u text ≡ ok p → All IsIndex p.indices
unfolding parse
parse-IsIndex u text p e =
    let s : Str = strip u text in
    elim (Bool-cases (equal s [] || equal s (codes "m"))) [
      | inl is_root ↦ nil-IsIndex p (rw is_root at e)
      | inr longer ↦
          let (_, e1) = unless-eq-ok (not (starts_with_m s)) _ _ (rw longer at e) in
          let (out, read, last) =
            >>=-eq-ok (traverse (parse_part u) (split_at b'/' (drop 2 s))) _ e1 in
          rw (← ok-injective last) (
            traverse-All IsIndex (parse_part u) (split_at b'/' (drop 2 s)) out
              (λ part x h. (parse_part-IsIndex u part x h).0) read)
    ]
