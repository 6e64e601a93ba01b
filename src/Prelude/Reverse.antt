-- ===== src/Prelude/Reverse.antt =====
-- Reversed lists.
use mathlib.Core.Path.{◌≡◌, refl}
use mathlib.Core.List.{List, [], ◌∷◌, ◌++◌, reverse, reverse_aux}
use keystone_crypto.Prelude.Lists.{All}

module _ {ℓ} {A : Type ℓ} where
  reverse_aux-append :
      (xs ys r : List A) → reverse_aux (xs ++ ys) r ≡ reverse_aux ys (reverse_aux xs r)
  reverse_aux-append [] ys r = refl
  reverse_aux-append (x ∷ xs) ys r = reverse_aux-append xs ys (x ∷ r)

  pub reverse-snoc : (xs : List A) (x : A) → reverse (xs ++ x ∷ []) ≡ x ∷ reverse xs
  reverse-snoc xs x = reverse_aux-append xs (x ∷ []) []

  reverse-reverse_aux : (xs r : List A) → reverse (reverse_aux xs r) ≡ reverse_aux r xs
  reverse-reverse_aux [] r = refl
  reverse-reverse_aux (x ∷ xs) r = reverse-reverse_aux xs (x ∷ r)

  pub reverse-reverse : (xs : List A) → reverse (reverse xs) ≡ xs
  reverse-reverse xs = reverse-reverse_aux xs []

module _ {ℓ κ} {A : Type ℓ} (P : A → Type κ) where
  All-reverse_aux : (xs r : List A) → All P xs → All P r → All P (reverse_aux xs r)
  All-reverse_aux [] r h hr = hr
  All-reverse_aux (x ∷ xs) r (h, hs) hr = All-reverse_aux xs (x ∷ r) hs (h, hr)

  pub All-reverse : (xs : List A) → All P xs → All P (reverse xs)
  All-reverse xs h = All-reverse_aux xs [] h tt
