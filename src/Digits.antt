-- ===== src/Digits.antt =====
-- Numbers as digits in a base, most significant first: what Python's `int.from_bytes`,
-- `int.to_bytes`, `int(text, 2)`, `bin` and `zfill` compute with.
use keystone_crypto.Prelude.{
  ℕ, zero, suc, ◌+◌, ◌*◌, ◌/◌, ◌%◌, ◌^◌, ◌≤◌, ◌<◌, ◌≡◌, refl, sym, ap, ◌∙◌, List, [], ◌∷◌, ◌++◌,
  arith, length, length-append, replicate, All, ◌==◌, if◌then◌else◌, Bool-cases, inl, inr,
}
use mathlib.Core.Path.{ap₂}
use native.Mathlib.Nat.{
  pow-suc, div-div-eq-div-mul, div-add-mod', add-mul-div_right, add-mul-mod_self_right, mod-lt,
  mod-eq_of_lt, div-eq_of_lt, mul-le-mul_right, one-le-pow, zero-add, suc-add, pow-zero, mod-one,
  zero-div, zero-mod, add_comm, mul_comm, div-lt_iff_lt-mul, div-lt_self,
}

-- The number that the digits spell.
unfoldable pub value : ℕ → List ℕ → ℕ
value b [] = 0
value b (d ∷ ds) = d * b ^ length ds + value b ds

-- The last `w` digits of `n`.
unfoldable pub digits : ℕ → ℕ → ℕ → List ℕ
digits b zero n = []
digits b (suc w) n = (n / b ^ w % b) ∷ digits b w n

pub length-digits : (b w n : ℕ) → length (digits b w n) ≡ w
unfolding digits
length-digits b zero n = refl
length-digits b (suc w) n = ap suc (length-digits b w n)

pub pow-add : (b m n : ℕ) → b ^ (m + n) ≡ b ^ m * b ^ n
pow-add b zero n = rw (zero-add, pow-zero) (omega arith)
pow-add b (suc m) n = rw (suc-add m n, pow-suc, pow-add b m n) (rw pow-suc (omega arith))

-- One more digit: `b ^ w * b` splits a number above its last `w` digits.
mod_split : (n b p : ℕ) → 0 < b → 0 < p → n % (p * b) ≡ n / p % b * p + n % p
mod_split n b p hb hp = omega (
  arith,
  div-add-mod' n (p * b),
  div-add-mod' n p,
  ap (λ (t : ℕ). t * p) (div-add-mod' (n / p) b),
  ap (λ (t : ℕ). t * (p * b)) (div-div-eq-div-mul n p b),
)

pow_pos : (b w : ℕ) → 0 < b → 0 < b ^ w
pow_pos b w h = one-le-pow w b h

pub value-digits : (b w n : ℕ) → 0 < b → value b (digits b w n) ≡ n % b ^ w
unfolding value digits
value-digits b zero n h = rw (pow-zero b, mod-one n)
value-digits b (suc w) n h =
    rw (length-digits b w n, value-digits b w n h, pow-suc)
      (sym (mod_split n b (b ^ w) h (pow_pos b w h)))

pub value-digits_of_lt : (b w n : ℕ) → 0 < b → n < b ^ w → value b (digits b w n) ≡ n
value-digits_of_lt b w n h lt = value-digits b w n h ∙ mod-eq_of_lt lt

abbrev pub AreDigits : ℕ → List ℕ → Type 0
AreDigits b = All (λ d. d < b)

pub digits-AreDigits : (b w n : ℕ) → 0 < b → AreDigits b (digits b w n)
unfolding digits
digits-AreDigits b zero n h = tt
digits-AreDigits b (suc w) n h = (mod-lt (n / b ^ w) h, digits-AreDigits b w n h)

pub value-lt : (b : ℕ) (ds : List ℕ) → AreDigits b ds → value b ds < b ^ length ds
unfolding value
value-lt b [] h = omega (arith, pow-zero b)
value-lt b (d ∷ ds) (h, hs) =
    rw pow-suc (omega (arith, value-lt b ds hs, mul-le-mul_right (b ^ length ds) h))

-- The last `w` digits do not depend on what stands above them.
digits-add : (b w n k : ℕ) → 0 < b → digits b w (n + k * b ^ w) ≡ digits b w n
unfolding digits
digits-add b zero n k h = refl
digits-add b (suc w) n k h =
    ap₂ ◌∷◌ (top-digit n k) (rw (pow-suc, shifted) (digits-add b w n (k * b) h))
  where
    shifted : k * (b ^ w * b) ≡ k * b * b ^ w
    shifted = omega arith

    top-digit : (n k : ℕ) → (n + k * b ^ suc w) / b ^ w % b ≡ n / b ^ w % b
    top-digit n k =
        rw (pow-suc, ap (λ (t : ℕ). n + t) {x = k * (b ^ w * b)} {y = k * b * b ^ w} (omega arith))
          (rw (add-mul-div_right n (k * b) (pow_pos b w h), add-mul-mod_self_right))

-- Splitting the digits of a number is dividing it.
pub digits-plus :
    (b v w n : ℕ) → 0 < b → digits b (v + w) n ≡ digits b v (n / b ^ w) ++ digits b w n
unfolding digits
digits-plus b zero w n h = rw zero-add
digits-plus b (suc v) w n h = rw suc-add (ap₂ ◌∷◌ top (digits-plus b v w n h))
  where
    top : n / b ^ (v + w) % b ≡ n / b ^ w / b ^ v % b
    top =
        rw (pow-add b v w, div-div-eq-div-mul)
          (ap (λ (t : ℕ). n / t % b) (mul_comm (b ^ v) (b ^ w)))

-- Reading digits and writing them again, in as many places, changes nothing.
pub digits-value :
    (b : ℕ) (ds : List ℕ) → 0 < b → AreDigits b ds → digits b (length ds) (value b ds) ≡ ds
unfolding digits value
digits-value b [] h hs = refl
digits-value b (d ∷ ds) h (hd, hs) =
    let p : ℕ = b ^ length ds in
    let v : ℕ = value b ds in
    let small : v < p = value-lt b ds hs in
    ap₂ ◌∷◌
      (ap (λ (t : ℕ). t / p % b) (add_comm (d * p) v)
        ∙ rw (add-mul-div_right v d (pow_pos b (length ds) h), div-eq_of_lt small, zero-add)
            (mod-eq_of_lt hd))
      (ap (digits b (length ds)) (add_comm (d * p) v)
        ∙ digits-add b (length ds) v d h
        ∙ digits-value b ds h hs)

pub value-append :
    (b : ℕ) (xs ys : List ℕ) → value b (xs ++ ys) ≡ value b xs * b ^ length ys + value b ys
unfolding value
value-append b [] ys = omega arith
value-append b (x ∷ xs) ys =
    rw (length-append xs ys, pow-add b (length xs) (length ys), value-append b xs ys) (omega arith)

-- Equal digits in equally many places spell equal numbers only.
pub value-injective :
    (b : ℕ) (xs ys : List ℕ)
    → 0 < b
    → AreDigits b xs
    → AreDigits b ys
    → length xs ≡ length ys
    → value b xs ≡ value b ys
    → xs ≡ ys
value-injective b xs ys h hx hy el ev =
    sym (digits-value b xs h hx) ∙ ap₂ (digits b) el ev ∙ digits-value b ys h hy

-- Python's `bit_length`, in any base: the loop divides as long as the number is positive.
length_loop : ℕ → ℕ → ℕ → ℕ
length_loop b zero n = 0
length_loop b (suc fuel) n = let rest = length_loop b fuel (n / b) in if n == 0 then 0 else suc rest

unfoldable pub num_digits : ℕ → ℕ → ℕ
unfolding length_loop
num_digits b n = length_loop b n n

length_loop-fits : (b fuel n : ℕ) → 1 < b → n ≤ fuel → n < b ^ length_loop b fuel n
unfolding length_loop
length_loop-fits b zero n h hf = omega (arith, pow-zero b)
length_loop-fits b (suc fuel) n h hf = elim (Bool-cases (n == 0)) [
  | inl is_zero ↦ rw is_zero (ground (arith, pow-zero b))
  | inr positive ↦
      rw (positive, pow-suc)
        ((div-lt_iff_lt-mul (omega arith)).0
          (length_loop-fits b fuel (n / b) h (ground (arith, div-lt_self {n = n} {k = b}))))
]

length_loop-le : (b fuel n w : ℕ) → 1 < b → n < b ^ w → length_loop b fuel n ≤ w
unfolding length_loop
length_loop-le b zero n w h hn = omega arith
length_loop-le b (suc fuel) n zero h hn = ground (arith, pow-zero b)
length_loop-le b (suc fuel) n (suc w) h hn = elim (Bool-cases (n == 0)) [
  | inl is_zero ↦ rw is_zero (omega arith)
  | inr positive ↦ rw positive (
      omega (
        arith,
        length_loop-le b fuel (n / b) w h ((div-lt_iff_lt-mul (omega arith)).1 (rw pow-suc at hn)),
      ))
]

pub num_digits_fits : (b n : ℕ) → 1 < b → n < b ^ num_digits b n
unfolding num_digits length_loop
num_digits_fits b n h = length_loop-fits b n n h (omega arith)

pub num_digits-le : (b n w : ℕ) → 1 < b → n < b ^ w → num_digits b n ≤ w
unfolding num_digits length_loop
num_digits-le b n w h = length_loop-le b n n w h

-- A number written in more places than it needs begins with zeros.
pub digits_padded :
    (b k w n : ℕ) → 0 < b → n < b ^ w → digits b (k + w) n ≡ replicate k 0 ++ digits b w n
unfolding digits
digits_padded b k w n h lt =
    digits-plus b k w n h
    ∙ ap (λ (xs : List ℕ). xs ++ digits b w n) (rw (div-eq_of_lt lt) (digits_zero k))
  where
    digits_zero : (k : ℕ) → digits b k 0 ≡ replicate k 0
    digits_zero zero = refl
    digits_zero (suc k) = ap₂ ◌∷◌ (rw (zero-div, zero-mod)) (digits_zero k)
