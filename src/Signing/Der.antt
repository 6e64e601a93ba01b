-- ===== src/Signing/Der.antt =====
-- `_rs_to_der` and `_der_to_rs` (src/keystonecrypto/signing.py).
use keystone_crypto.Prelude.{
  ℕ, zero, suc, ◌+◌, ◌-◌, ◌/◌, ◌%◌, ◌≤◌, ◌<◌, ◌≡◌, refl, sym, ap, ◌∙◌, [], ◌∷◌, ◌++◌, true, false,
  length, slice, replicate, length-append, get_elem?-append, slice-append, le→ltb, ◌==◌, ==_iff,
  Bool-cases, inl, inr, arith,
}
use mathlib.Core.Path.{ap₂}
use mathlib.Core.List.{append-nil, append_assoc}
use keystone_crypto.Errors.{ok}
use keystone_crypto.Bytes.{Bytes, byte_fits, index, index-some}
use keystone_crypto.Signing.{
  rjust, drop_sign, der_to_rs, strip_zeros, add_sign, encode_int, rs_to_der,
}

length-strip_zeros : (x : Bytes) → length (strip_zeros x) ≤ length x
unfolding strip_zeros
length-strip_zeros [] = omega arith
length-strip_zeros (x ∷ []) = omega arith
length-strip_zeros (x ∷ y ∷ ys) = ground (arith, length-strip_zeros (y ∷ ys))

strip_zeros_zero :
    (x y : ℕ) (ys : Bytes) → (x == 0) ≡ true → strip_zeros (x ∷ y ∷ ys) ≡ strip_zeros (y ∷ ys)
unfolding strip_zeros
strip_zeros_zero x y ys e = rw e

strip_zeros_other :
    (x y : ℕ) (ys : Bytes) → (x == 0) ≡ false → strip_zeros (x ∷ y ∷ ys) ≡ x ∷ y ∷ ys
unfolding strip_zeros
strip_zeros_other x y ys e = rw e

pad : ℕ → Bytes → Bytes
pad k b = replicate k 0 ++ b

-- Stripping zeros removes as many as `rjust` puts back.
pad-strip_zeros : (x : Bytes) → pad (length x - length (strip_zeros x)) (strip_zeros x) ≡ x
unfolding pad
pad-strip_zeros [] = unfold strip_zeros in refl
pad-strip_zeros (x ∷ []) = unfold strip_zeros in refl
pad-strip_zeros (x ∷ y ∷ ys) = elim (Bool-cases (x == 0)) [
  | inl is_zero ↦
      let s : Bytes = strip_zeros (y ∷ ys) in
      let fewer : suc (suc (length ys)) - length s ≡ suc (suc (length ys) - length s) =
        omega (arith, length-strip_zeros (y ∷ ys)) in
      rw (strip_zeros_zero x y ys is_zero, fewer)
        (ap₂ ◌∷◌ (sym ((==_iff x 0).0 is_zero)) (pad-strip_zeros (y ∷ ys)))
  | inr other ↦ rw (strip_zeros_other x y ys other) (
      ap (λ (k : ℕ). replicate k 0 ++ x ∷ y ∷ ys)
        {x = suc (suc (length ys)) - suc (suc (length ys))} {y = 0} (omega arith))
]

strip_zeros-ne-nil : (x : Bytes) → 0 < length x → 0 < length (strip_zeros x)
unfolding strip_zeros
strip_zeros-ne-nil [] h = absurd (omega arith)
strip_zeros-ne-nil (x ∷ []) h = omega arith
strip_zeros-ne-nil (x ∷ y ∷ ys) h = ground (arith, strip_zeros-ne-nil (y ∷ ys))

-- What `encode_int` writes of a 32-byte number: a body that reads back as that number.
record Encoded (x : Bytes) : Type 0 where
  body : Bytes
  written : encode_int x ≡ ok (0x02 ∷ length body ∷ body)
  short : length body ≤ 33
  unsigned : length (drop_sign body) ≤ 32
  read_back : rjust 32 (drop_sign body) ≡ x

pad_zero : (k : ℕ) (b : Bytes) → pad k (0 ∷ b) ≡ pad (suc k) b
unfolding pad
pad_zero zero b = refl
pad_zero (suc k) b = ap (λ (t : Bytes). 0 ∷ t) (pad_zero k b)

rjust_zero : (b : Bytes) → length b < 32 → rjust 32 (0 ∷ b) ≡ rjust 32 b
unfolding rjust pad
rjust_zero b h =
    pad_zero (32 - suc (length b)) b
    ∙ ap (λ (k : ℕ). replicate k 0 ++ b) {x = suc (32 - suc (length b))} {y = 32 - length b}
        (omega arith)

-- With its sign byte, or without, a stripped number of at most 32 bytes reads back.
signed_body :
    (b : Bytes)
    → 0 < length b
    → length b ≤ 32
    → (body : Bytes) × (add_sign b ≡ ok body)
      × (0 < length body)
      × (length body ≤ 33)
      × (length (drop_sign body) ≤ 32)
      × (rjust 32 (drop_sign body) ≡ rjust 32 b)
unfolding add_sign drop_sign
signed_body [] h h32 = absurd (omega arith)
signed_body (x ∷ b) h h32 = elim (Bool-cases (x / 128 % 2 == 1)) [
  | inl high ↦ (
    0 ∷ x ∷ b,
    rw high,
    omega arith,
    omega arith,
    ground arith,
    ground (arith, rjust_zero (x ∷ b)),
  )
  | inr low ↦ (x ∷ b, rw low, omega arith, omega arith, ground arith, ground arith)
]

unpad : (x : Bytes) → length x ≡ 32 → rjust 32 (strip_zeros x) ≡ x
unfolding rjust
unpad x h = rw (← h) (unfold pad in pad-strip_zeros x)

encode_int-Encoded : (x : Bytes) → length x ≡ 32 → Encoded x
unfolding encode_int
encode_int-Encoded x h =
    let s : Bytes = strip_zeros x in
    let (body, signed, _, small, unsign, back) =
      signed_body s (strip_zeros-ne-nil x (omega arith)) (omega (arith, length-strip_zeros x)) in
    record {
      body = body;
      written = rw (signed, byte_fits (length body) (omega arith));
      short = small;
      unsigned = unsign;
      read_back = back ∙ unpad x h;
    }

-- The two integers behind one another, under the tag and the length.
abbrev der_of : ℕ → Bytes → Bytes → Bytes
der_of total br bs = 0x30 ∷ total ∷ 0x02 ∷ length br ∷ (br ++ 0x02 ∷ length bs ∷ bs)

module _ (br bs : Bytes) (total : ℕ) (size : total ≡ length br + length bs + 4) where
  r_slice : slice 4 (4 + length br) (der_of total br bs) ≡ br
  r_slice =
      slice-append 4 (4 + length br) (0x30 ∷ total ∷ 0x02 ∷ length br ∷ []) br
        (0x02 ∷ length bs ∷ bs) refl refl

  s_tag_at : index (der_of total br bs) (4 + length br) ≡ ok 0x02
  s_tag_at = index-some _ _ _ (
      get_elem?-append (0x30 ∷ total ∷ 0x02 ∷ length br ∷ br) (0x02 ∷ length bs ∷ bs) 0
        (4 + length br) (omega arith))

  s_len_at : index (der_of total br bs) (4 + length br + 1) ≡ ok (length bs)
  s_len_at = index-some _ _ _ (
      get_elem?-append (0x30 ∷ total ∷ 0x02 ∷ length br ∷ br) (0x02 ∷ length bs ∷ bs) 1
        (4 + length br + 1) (omega arith))

  s_slice : slice (4 + length br + 2) (4 + length br + 2 + length bs) (der_of total br bs) ≡ bs
  s_slice =
      ap (slice (4 + length br + 2) (4 + length br + 2 + length bs)) regroup
      ∙ slice-append (4 + length br + 2) (4 + length br + 2 + length bs)
          ((0x30 ∷ total ∷ 0x02 ∷ length br ∷ br) ++ 0x02 ∷ length bs ∷ []) bs []
          (length-append (0x30 ∷ total ∷ 0x02 ∷ length br ∷ br) (0x02 ∷ length bs ∷ [])
            ∙ omega arith)
          refl
    where
      regroup :
          der_of total br bs
          ≡ ((0x30 ∷ total ∷ 0x02 ∷ length br ∷ br) ++ 0x02 ∷ length bs ∷ []) ++ (bs ++ [])
      regroup = simp (append_assoc, append-nil)

  length-der_of : length (der_of total br bs) ≡ total + 2
  length-der_of = omega (arith, length-append br (0x02 ∷ length bs ∷ bs))

  -- Reading the two bodies, whatever they are, unless one is too long.
  der_to_rs-der_of :
      length (drop_sign br) ≤ 32
      → length (drop_sign bs) ≤ 32
      → der_to_rs (der_of total br bs) ≡ ok (rjust 32 (drop_sign br), rjust 32 (drop_sign bs))
  unfolding der_to_rs
  der_to_rs-der_of hr hs =
      let der : Bytes = der_of total br bs in
      rw (
        index-some der 0 0x30 refl,
        index-some der 1 total refl,
        (==_iff (total + 2) (length der)).1 (sym length-der_of),
        index-some der 2 0x02 refl,
        index-some der 3 (length br) refl,
        s_tag_at,
        s_len_at,
        r_slice,
        s_slice,
        le→ltb 32 (length (drop_sign br)) hr,
        le→ltb 32 (length (drop_sign bs)) hs,
      )

-- Every pair of 32-byte numbers is encoded in at most 72 bytes, and decoding them gives the pair back.
pub der_to_rs-rs_to_der :
    (r s : Bytes)
    → length r ≡ 32
    → length s ≡ 32
    → (der : Bytes) × (rs_to_der r s ≡ ok der) × (der_to_rs der ≡ ok (r, s)) × (length der ≤ 72)
unfolding rs_to_der
der_to_rs-rs_to_der r s hr hs =
    let er : Encoded r = encode_int-Encoded r hr in
    let es : Encoded s = encode_int-Encoded s hs in
    let total : ℕ = length (0x02 ∷ length er.body ∷ (er.body ++ 0x02 ∷ length es.body ∷ es.body)) in
    let size : total ≡ length er.body + length es.body + 4 =
      omega (arith, length-append er.body (0x02 ∷ length es.body ∷ es.body)) in
    (
      der_of total er.body es.body,
      rw (hr, hs, er.written, es.written, byte_fits total (omega (arith, er.short, es.short))),
      rw (
        der_to_rs-der_of er.body es.body total size er.unsigned es.unsigned,
        er.read_back,
        es.read_back,
      ),
      omega (arith, length-der_of er.body es.body total size, er.short, es.short),
    )
