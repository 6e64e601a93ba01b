-- ===== src/Signing/StrictDer.antt =====
-- Strict DER of two numbers, described apart from `_rs_to_der` (src/keystonecrypto/signing.py).
use keystone_crypto.Prelude.{
  ℕ, zero, suc, ◌+◌, ◌*◌, ◌/◌, ◌%◌, ◌^◌, ◌≤◌, ◌<◌, ◌≡◌, ◌⊎◌, refl, sym, ap, ◌∙◌, [], ◌∷◌, ◌++◌,
  true, false, length, length-append, length-replicate, replicate, All-append, All-replicate, ◌==◌,
  Bool-cases, inl, inr, arith,
}
use keystone_crypto.Digits.{value, value-append, value-injective}
use keystone_crypto.Errors.{ok-injective, ok}
use keystone_crypto.Bytes.{Bytes, AreBytes, from_bytes, byte_fits}
use keystone_crypto.Signing.Der.{der_to_rs-rs_to_der}
use keystone_crypto.Signing.{der_to_rs, strip_zeros, add_sign, encode_int, rs_to_der}

-- The contents of an INTEGER: at least one byte, the first below 128, and no superfluous zero byte.
abbrev pub IsMinimal : Bytes → Type 0
IsMinimal [] = ⊥
IsMinimal (b ∷ []) = b < 128
IsMinimal (b ∷ c ∷ bs) = (b < 128) × ((0 < b) ⊎ (128 ≤ c))

-- The contents `body` of the INTEGER that is the number of the bytes `x`.
pub record IsDerInteger (body x : Bytes) : Type 0 where
  pub minimal : IsMinimal body
  pub are_bytes : AreBytes body
  pub same : from_bytes body ≡ from_bytes x

-- A SEQUENCE of two INTEGERs.
abbrev pub der_sequence : Bytes → Bytes → Bytes
der_sequence br bs =
    0x30 ∷ (length br + length bs + 4) ∷ 0x02 ∷ length br ∷ (br ++ 0x02 ∷ length bs ∷ bs)

-- No zero in front, unless it is the only byte.
abbrev IsStripped : Bytes → Type 0
IsStripped [] = ⊥
IsStripped (b ∷ []) = Unit
IsStripped (b ∷ c ∷ bs) = 0 < b

strip_zeros_lem :
    (x : Bytes)
    → 0 < length x
    → AreBytes x
    → IsStripped (strip_zeros x)
      × AreBytes (strip_zeros x)
      × (from_bytes (strip_zeros x) ≡ from_bytes x)
      × (length (strip_zeros x) ≤ length x)
unfolding strip_zeros value
strip_zeros_lem [] h hs = absurd (omega arith)
strip_zeros_lem (x ∷ []) h hs = (tt, hs, refl, omega arith)
strip_zeros_lem (x ∷ y ∷ ys) h (hx, hs) =
    let (stripped, are, same, le) = strip_zeros_lem (y ∷ ys) (omega arith) hs in
    elim (Bool-cases (x == 0)) [
      | inl is_zero ↦ rw is_zero (
        stripped,
        are,
        same ∙ leading x (256 ^ suc (length ys)) (from_bytes (y ∷ ys)) is_zero,
        omega (arith, le),
      )
      | inr other ↦ rw other (positive x other, (hx, hs), refl, omega arith)
    ]
  where
    positive : (n : ℕ) → (n == 0) ≡ false → 0 < n
    positive n e = ground arith

    leading : (n p v : ℕ) → (n == 0) ≡ true → v ≡ n * p + v
    leading n p v e = ground arith

-- With its sign byte, a stripped number is minimal.
add_sign_lem :
    (b : Bytes)
    → IsStripped b
    → AreBytes b
    → (body : Bytes) × (add_sign b ≡ ok body)
      × IsMinimal body
      × AreBytes body
      × (from_bytes body ≡ from_bytes b)
      × (length body ≤ suc (length b))
unfolding add_sign value
add_sign_lem [] h hs = absurd h
add_sign_lem (x ∷ xs) h (hx, hs) = elim (Bool-cases (x / 128 % 2 == 1)) [
  | inl high ↦ (
    0 ∷ x ∷ xs,
    rw high refl,
    (omega arith, inr (top x hx high)),
    (omega arith, (hx, hs)),
    omega arith,
    omega arith,
  )
  | inr low ↦ (x ∷ xs, rw low refl, small xs h (bottom x hx low), (hx, hs), refl, omega arith)
]
  where
    top : (n : ℕ) → n < 256 → (n / 128 % 2 == 1) ≡ true → 128 ≤ n
    top n hn e = ground arith

    bottom : (n : ℕ) → n < 256 → (n / 128 % 2 == 1) ≡ false → n < 128
    bottom n hn e = ground arith

    small : (ys : Bytes) → IsStripped (x ∷ ys) → x < 128 → IsMinimal (x ∷ ys)
    small [] st lt = lt
    small (y ∷ ys) st lt = (lt, inl st)

pad : ℕ → Bytes → Bytes
pad k b = replicate k 0 ++ b

value_zeros : (k : ℕ) → from_bytes (replicate k 0) ≡ 0
unfolding value
value_zeros zero = refl
value_zeros (suc k) = omega (arith, value_zeros k)

from_bytes-pad : (k : ℕ) (b : Bytes) → from_bytes (pad k b) ≡ from_bytes b
unfolding pad
from_bytes-pad k b = value-append 256 (replicate k 0) b ∙ rw (value_zeros k) (omega arith)

-- A minimal text cannot be another one behind zeros.
pad-minimal : (k : ℕ) (a b : Bytes) → IsMinimal a → IsMinimal b → a ≡ pad k b → a ≡ b
unfolding pad
pad-minimal zero a b ha hb e = e
pad-minimal (suc zero) a [] ha hb e = absurd hb
pad-minimal (suc zero) a (c ∷ b) ha hb e = absurd (no_room (rw e at ha))
  where
    first : (bs : Bytes) → IsMinimal (c ∷ bs) → 128 ≤ c → ⊥
    first [] lt high = absurd (omega arith)
    first (d ∷ bs) (lt, _) high = absurd (omega arith)

    no_room : IsMinimal (0 ∷ c ∷ b) → ⊥
    no_room (lt, inl pos_0) = absurd (omega arith)
    no_room (lt, inr high) = first b hb high
pad-minimal (suc (suc k)) a b ha hb e = absurd (two_zeros (rw e at ha))
  where
    two_zeros : IsMinimal (0 ∷ 0 ∷ (replicate k 0 ++ b)) → ⊥
    two_zeros (lt, inl pos_0) = absurd (omega arith)
    two_zeros (lt, inr high) = absurd (omega arith)

same_pads : (j k : ℕ) (a b : Bytes) → IsMinimal a → IsMinimal b → pad j a ≡ pad k b → a ≡ b
unfolding pad
same_pads zero k a b ha hb e = pad-minimal k a b ha hb e
same_pads (suc j) zero a b ha hb e = sym (pad-minimal (suc j) b a hb ha (sym e))
same_pads (suc j) (suc k) a b ha hb e = same_pads j k a b ha hb (ap rest e)
  where
    rest : Bytes → Bytes
    rest [] = []
    rest (x ∷ xs) = xs

-- The contents are determined by the number.
minimal_unique :
    (a b : Bytes)
    → IsMinimal a
    → IsMinimal b
    → AreBytes a
    → AreBytes b
    → from_bytes a ≡ from_bytes b
    → a ≡ b
unfolding pad
minimal_unique a b ha hb ba bb e = same_pads (length b) (length a) a b ha hb (
    value-injective 256 (pad (length b) a) (pad (length a) b) (omega arith) (padded (length b) a ba)
      (padded (length a) b bb)
      (length-append (replicate (length b) 0) a
        ∙ omega (
          arith,
          length-append (replicate (length a) 0) b,
          length-replicate {A = ℕ} (length b) 0,
          length-replicate {A = ℕ} (length a) 0,
        ))
      (from_bytes-pad (length b) a ∙ e ∙ sym (from_bytes-pad (length a) b)))
  where
    padded : (k : ℕ) (c : Bytes) → AreBytes c → AreBytes (replicate k 0 ++ c)
    padded k c h =
        All-append (λ d. d < 256) (replicate k 0) c (All-replicate (λ d. d < 256) k 0 (omega arith))
          h

encode_int-IsDerInteger :
    (x body : Bytes)
    → length x ≡ 32
    → AreBytes x
    → IsDerInteger body x
    → (encode_int x ≡ ok (0x02 ∷ length body ∷ body)) × (length body ≤ 33)
unfolding encode_int
encode_int-IsDerInteger x body h hs d =
    let (stripped, are, same, le) = strip_zeros_lem x (omega arith) hs in
    let (own, signed, minimal, own_bytes, own_same, own_le) =
      add_sign_lem (strip_zeros x) stripped are in
    let is_own : own ≡ body =
      minimal_unique own body minimal d.minimal own_bytes d.are_bytes
        (own_same ∙ same ∙ sym d.same) in
    let short : length own ≤ 33 = omega (arith, own_le, le) in
    (
      rw (signed, byte_fits (length own) (omega (arith, short)))
          (ap (λ (b : Bytes). ok (0x02 ∷ length b ∷ b)) is_own),
      omega (arith, ap length is_own, short),
    )

-- `rs_to_der` writes the strict DER form.
pub rs_to_der-der_sequence :
    (r s br bs : Bytes)
    → length r ≡ 32
    → length s ≡ 32
    → AreBytes r
    → AreBytes s
    → IsDerInteger br r
    → IsDerInteger bs s
    → rs_to_der r s ≡ ok (der_sequence br bs)
unfolding rs_to_der
rs_to_der-der_sequence r s br bs hr hs r_bytes s_bytes dr ds =
    let (r_written, r_short) = encode_int-IsDerInteger r br hr r_bytes dr in
    let (s_written, s_short) = encode_int-IsDerInteger s bs hs s_bytes ds in
    let body : Bytes = 0x02 ∷ length br ∷ (br ++ 0x02 ∷ length bs ∷ bs) in
    let size : length body ≡ length br + length bs + 4 =
      omega (arith, length-append br (0x02 ∷ length bs ∷ bs)) in
    rw
      (
        hr,
        hs,
        r_written,
        s_written,
        byte_fits (length body) (omega (arith, size, r_short, s_short)),
      )
      (ap (λ (n : ℕ). ok (0x30 ∷ n ∷ body)) size)

-- Every number of 32 bytes has such contents.
pub der_integer : (x : Bytes) → length x ≡ 32 → AreBytes x → (body : Bytes) × IsDerInteger body x
der_integer x h hs =
    let (stripped, are, same, _) = strip_zeros_lem x (omega arith) hs in
    let (body, _, minimal, bytes, own_same, _) = add_sign_lem (strip_zeros x) stripped are in
    (body, record { minimal = minimal; are_bytes = bytes; same = own_same ∙ same })

-- An ECDSA signature in strict DER: the SEQUENCE of two numbers of 32 bytes.
pub record StrictDer (der : Bytes) : Type 0 where
  pub r : Bytes
  pub s : Bytes
  pub length-r : length r ≡ 32
  pub length-s : length s ≡ 32
  pub r_bytes : AreBytes r
  pub s_bytes : AreBytes s
  pub r_body : Bytes
  pub s_body : Bytes
  pub r_integer : IsDerInteger r_body r
  pub s_integer : IsDerInteger s_body s
  pub whole : der ≡ der_sequence r_body s_body

pub rs_to_der-StrictDer : (der : Bytes) (d : StrictDer der) → rs_to_der d.r d.s ≡ ok der
rs_to_der-StrictDer der d =
    rs_to_der-der_sequence d.r d.s d.r_body d.s_body d.length-r d.length-s d.r_bytes d.s_bytes
      d.r_integer d.s_integer
    ∙ ap ok (sym d.whole)

-- An ECDSA signature in strict DER is read as the two numbers of 32 bytes that it holds, and these are
-- written as that signature again.
pub rs_to_der-der_to_rs :
    (der : Bytes) (d : StrictDer der)
    → (der_to_rs der ≡ ok (d.r, d.s)) × (rs_to_der d.r d.s ≡ ok der)
rs_to_der-der_to_rs der d =
    let (own, written, back, _) = der_to_rs-rs_to_der d.r d.s d.length-r d.length-s in
    let same : own ≡ der = ok-injective (sym written ∙ rs_to_der-StrictDer der d) in
    (ap der_to_rs (sym same) ∙ back, rs_to_der-StrictDer der d)
