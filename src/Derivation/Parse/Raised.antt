-- ===== src/Derivation/Parse/Raised.antt =====
-- The exceptions of `DerivationPath.parse` (src/keystonecrypto/derivation.py).
use keystone_crypto.Prelude.{
  suc, some, get_elem?, List, ℕ, ◌+◌, ◌*◌, ◌<◌, ◌≡◌, ◌⊎◌, refl, [], ◌∷◌, true, ◌||◌, none, length,
  drop, ltb, ltb→lt, not, Bool-cases, Option-cases, inl, inr,
}
use keystone_crypto.Errors.{Error, err}
use keystone_crypto.Errors.Raises.{Raises, Raises-err, Raises->>=, Raises-if, Raises-require}
use keystone_crypto.Bytes.{equal}
use keystone_crypto.Text.{Str, codes}
use keystone_crypto.Unicode.{Unicode, strip}
use keystone_crypto.Mnemonic.{traverse}
use keystone_crypto.Mnemonic.Raised.{traverse-Raises}
use keystone_crypto.Derivation.{
  parse, parse_part, split_at, starts_with_m, is_digits, read_digits, int_of_str, rstrip_marks,
}

-- Why `int` refuses a text that `isdigit` accepts: it is too long, or one of its characters, at the place
-- `j`, is no decimal digit.
abbrev pub IntRefuses : Unicode → Str → Type 0
IntRefuses u num_str =
    (4300 < length num_str)
    ⊎ ((j c : ℕ) × (get_elem? num_str j ≡ some c) × (u.decimal_value c ≡ none))

abbrev pub IsPathError : Type 0 → Error → Type 0
IsPathError reason Error.invalid_derivation_path = Unit
IsPathError reason Error.value_error = reason
IsPathError reason _ = ⊥

module _ (u : Unicode) where
  -- The components of a text.
  abbrev pub components : Str → List Str
  components text = split_at b'/' (drop 2 (strip u text))

  -- One of the components is a text of digits that `int` refuses.
  abbrev pub AnyRefused : Str → Type 0
  AnyRefused text =
      (k : ℕ) × (part : Str) × (get_elem? (components text) k ≡ some part)
      × (is_digits u (rstrip_marks part) ≡ true)
      × IntRefuses u (rstrip_marks part)

  read_digits-Raises :
      (reason : Type 0) (s : Str) (n : ℕ)
      → ((j c : ℕ) → get_elem? s j ≡ some c → u.decimal_value c ≡ none → reason)
      → Raises (IsPathError reason) (read_digits u s n)
  unfolding read_digits
  read_digits-Raises reason [] n bad = tt
  read_digits-Raises reason (c ∷ s) n bad = elim (Option-cases (u.decimal_value c)) [
    | inl odd ↦ rw odd (bad 0 c refl odd)
    | inr (d, decimal) ↦ rw decimal (read_digits-Raises reason s (n * 10 + d) (λ j. bad (suc j)))
  ]

  int_of_str-Raises :
      (reason : Type 0) (s : Str)
      → (IntRefuses u s → reason)
      → Raises (IsPathError reason) (int_of_str u s)
  unfolding int_of_str
  int_of_str-Raises reason s why = elim (Bool-cases (ltb 4300 (length s))) [
    | inl long ↦ rw long (why (inl (ltb→lt 4300 _ long)))
    | inr short ↦
        rw short (read_digits-Raises reason s 0 (λ j d at_j odd. why (inr (j, d, at_j, odd))))
  ]

  parse_part-Raises :
      (reason : Type 0) (part : Str)
      → (is_digits u (rstrip_marks part) ≡ true → IntRefuses u (rstrip_marks part) → reason)
      → Raises (IsPathError reason) (parse_part u part)
  unfolding parse_part
  parse_part-Raises reason part why =
      Raises-require (IsPathError reason) (is_digits u (rstrip_marks part)) _ _ tt λ digits.
        Raises->>= (IsPathError reason) (int_of_str u (rstrip_marks part)) _
          (int_of_str-Raises reason (rstrip_marks part) (why digits))
          λ idx _. Raises-require (IsPathError reason) (not (ltb 0x7FFFFFFF idx)) _ _ tt λ _. tt

  parse-Raises : (text : Str) → Raises (IsPathError (AnyRefused text)) (parse u text)
  unfolding parse
  parse-Raises text = elim (Bool-cases (equal s [] || equal s (codes "m"))) [
    | inl empty ↦ rw empty tt
    | inr longer ↦ rw longer (
        Raises-if (IsPathError (AnyRefused text)) (not (starts_with_m s)) _ _ tt λ _.
          Raises->>= (IsPathError (AnyRefused text)) (traverse (parse_part u) (components text)) _
            (traverse-Raises (IsPathError (AnyRefused text)) (parse_part u) (components text)
              λ k part there.
                parse_part-Raises (AnyRefused text) part
                  (λ digits refuses. (k, part, there, digits, refuses)))
            λ out _. tt)
  ]
    where
      s : Str
      s = strip u text

  path_cases :
      (reason : Type 0) (e : Error)
      → IsPathError reason e
      → (e ≡ Error.invalid_derivation_path) ⊎ ((e ≡ Error.value_error) × reason)
  path_cases reason Error.invalid_derivation_path h = inl refl
  path_cases reason Error.value_error h = inr (refl, h)
  path_cases reason _ h = absurd h

  -- What `parse` raises, whatever the text: `InvalidDerivationPathError`, or a `ValueError`, and that
  -- only if a component of the text, without its marks, is made of digits that `int` refuses, since
  -- there are more than 4300 of them or one is not a decimal digit.
  pub parse_raises :
      (text : Str) (e : Error)
      → parse u text ≡ err e
      → (e ≡ Error.invalid_derivation_path) ⊎ ((e ≡ Error.value_error) × AnyRefused text)
  parse_raises text e raised =
      path_cases (AnyRefused text) e
        (Raises-err (IsPathError (AnyRefused text)) (parse u text) (parse-Raises text) raised)
