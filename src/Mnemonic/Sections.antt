-- ===== src/Mnemonic/Sections.antt =====
-- The two parts of the bits, entropy and checksum, and the text of a phrase.
use keystone_crypto.Prelude.{
  ℕ, zero, suc, ◌+◌, ◌-◌, ◌*◌, ◌/◌, ◌^◌, ◌≤◌, ◌<◌, ◌≡◌, refl, sym, ap, ◌∙◌, List, [], ◌∷◌, ◌++◌,
  true, length, length-take, length-append, take-append, drop-append, All, All-append, All-take,
  arith,
}
use native.Mathlib.Nat.{pow-succ'}
use keystone_crypto.Digits.{
  pow-add, digits, length-digits, value-digits_of_lt, digits-AreDigits, value-lt, AreDigits,
}
use keystone_crypto.Bits.{bin, zfill, zfill-bin}
use keystone_crypto.Errors.{ok}
use keystone_crypto.Bytes.{Bytes, AreBytes, from_bytes, to_bytes, to_bytes-from_bytes}
use keystone_crypto.Text.{Str}
use keystone_crypto.Unicode.{Unicode, IsUnicode, IsAscii, join}
use keystone_crypto.Unicode.Split.{NoSpaces, AreWords}
use keystone_crypto.Hashes.{Hashes, IsHashes}
use keystone_crypto.Words.{is_lower}
use keystone_crypto.Mnemonic.{slice_but_last, slice_last, bytes_of_bits, checksum}
use keystone_crypto.Mnemonic.Pieces.{IsWord, int_of_bits_some}

pub slice_but_last-append :
    (k : ℕ) (xs ys : List ℕ) → 0 < k → length ys ≡ k → slice_but_last k (xs ++ ys) ≡ xs
unfolding slice_but_last
slice_but_last-append zero xs ys h e = absurd (omega arith)
slice_but_last-append (suc k) xs ys h e =
    take-append (length (xs ++ ys) - suc k) xs ys (omega (arith, length-append xs ys))

pub slice_last-append :
    (k : ℕ) (xs ys : List ℕ) → 0 < k → length ys ≡ k → slice_last k (xs ++ ys) ≡ ys
unfolding slice_last
slice_last-append zero xs ys h e = absurd (omega arith)
slice_last-append (suc k) xs ys h e =
    drop-append (length (xs ++ ys) - suc k) xs ys (omega (arith, length-append xs ys))

pub two_pow_eight : (n : ℕ) → 2 ^ (n * 8) ≡ 256 ^ n
two_pow_eight zero = refl
two_pow_eight (suc n) =
    ap (λ (k : ℕ). 2 ^ k) {x = suc n * 8} {y = 8 + n * 8} (omega arith)
    ∙ pow-add 2 8 (n * 8)
    ∙ ap (λ (k : ℕ). 256 * k) (two_pow_eight n)
    ∙ sym (pow-succ' 256 n)

-- The entropy in binary, and its length.
pub entropy_bits :
    (ent : Bytes)
    → 0 < length ent
    → AreBytes ent
    → zfill (length ent * 8) (bin (from_bytes ent)) ≡ digits 2 (length ent * 8) (from_bytes ent)
entropy_bits ent h hs =
    zfill-bin (length ent * 8) (from_bytes ent) (omega arith)
      (rw two_pow_eight (value-lt 256 ent hs))

-- The bits of the entropy are read back as its bytes.
pub bytes_of_bits-digits :
    (ent : Bytes)
    → 0 < length ent
    → AreBytes ent
    → bytes_of_bits (digits 2 (length ent * 8) (from_bytes ent)) ≡ ok ent
unfolding bytes_of_bits
bytes_of_bits-digits ent h hs =
    let bits : List ℕ = digits 2 (length ent * 8) (from_bytes ent) in
    let long : length bits ≡ length ent * 8 = length-digits 2 (length ent * 8) (from_bytes ent) in
    rw
      (
        int_of_bits_some bits (omega arith),
        long,
        value-digits_of_lt 2 (length ent * 8) (from_bytes ent) (omega arith)
            (rw two_pow_eight (value-lt 256 ent hs)),
      )
      (ap (λ (w : ℕ). to_bytes w (from_bytes ent)) {x = length ent * 8 / 8} {y = length ent}
          (omega arith)
        ∙ to_bytes-from_bytes ent hs)

module _ (h : Hashes) (laws : IsHashes h) where
  hash_bits :
      (ent : Bytes)
      → zfill 256 (bin (from_bytes (h.sha256 ent))) ≡ digits 2 256 (from_bytes (h.sha256 ent))
  hash_bits ent = zfill-bin 256 _ (omega arith) (
      omega (
        arith,
        value-lt 256 (h.sha256 ent) (laws.sha256-AreBytes ent),
        ap (λ (n : ℕ). 256 ^ n) (laws.length-sha256 ent),
      ))

  pub length-checksum : (k : ℕ) (ent : Bytes) → k ≤ 256 → length (checksum h k ent) ≡ k
  unfolding checksum
  length-checksum k ent hk =
      rw (hash_bits ent)
        (length-take k _ ∙ omega (arith, length-digits 2 256 (from_bytes (h.sha256 ent))))

  pub checksum-AreDigits : (k : ℕ) (ent : Bytes) → AreDigits 2 (checksum h k ent)
  unfolding checksum
  checksum-AreDigits k ent =
      rw (hash_bits ent) (All-take (λ d. d < 2) k _ (digits-AreDigits 2 256 _ (omega arith)))

lower-cons :
    (c : ℕ) (w : Str) → is_lower (c ∷ w) ≡ true → (97 ≤ c) × (c ≤ 122) × (is_lower w ≡ true)
unfolding is_lower
lower-cons c w h = ground arith

module _ (u : Unicode) (laws : IsUnicode u) where
  lower-NoSpaces : (w : Str) → is_lower w ≡ true → NoSpaces u w
  lower-NoSpaces [] h = tt
  lower-NoSpaces (c ∷ w) h =
      let (lo, hi, rest) = lower-cons c w h in
      (laws.graphic_not_space c (omega arith) (omega arith), lower-NoSpaces w rest)

  pub words-AreWords : (ws : List Str) → All IsWord ws → AreWords u ws
  words-AreWords [] h = tt
  words-AreWords (w ∷ ws) ((lower, ne), hs) = ((lower-NoSpaces w lower, ne), words-AreWords ws hs)

lower-IsAscii : (w : Str) → is_lower w ≡ true → IsAscii w
lower-IsAscii [] h = tt
lower-IsAscii (c ∷ w) h =
    let (lo, hi, rest) = lower-cons c w h in (omega arith, lower-IsAscii w rest)

pub join-IsAscii : (ws : List Str) → All IsWord ws → IsAscii (join ws)
unfolding join
join-IsAscii [] h = tt
join-IsAscii (w ∷ []) ((lower, _), _) = lower-IsAscii w lower
join-IsAscii (w ∷ v ∷ ws) ((lower, _), hs) =
    All-append (λ c. c < 128) w (32 ∷ join (v ∷ ws)) (lower-IsAscii w lower)
      (omega arith, join-IsAscii (v ∷ ws) hs)
