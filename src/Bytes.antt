-- ===== src/Bytes.antt =====
-- Byte strings as lists of numbers below 256: `int.from_bytes`, `int.to_bytes`, `struct.pack`.
use keystone_crypto.Prelude.{
  Bool-cases, inl, inr, ℕ, zero, suc, ◌-◌, ◌^◌, ◌<◌, ◌≡◌, ◌≢◌, refl, sym, ap, ◌∙◌, List, [], ◌∷◌,
  Bool, true, false, ◌&&◌, not, arith, length, get_elem?, ltb, ◌==◌, if◌then◌else◌, ltb→lt, lt→ltb,
  none, some,
}
use keystone_crypto.Digits.{
  value, digits, length-digits, value-digits_of_lt, value-lt, digits-value, AreDigits,
  digits-AreDigits,
}
use keystone_crypto.Errors.{Error, Result, ok, err, ok-injective, if-eq-ok, if_true}

abbrev pub Bytes : Type 0
Bytes = List ℕ

abbrev pub AreBytes : Bytes → Type 0
AreBytes = AreDigits 256

-- A Python integer: `negsuc n` is -(n + 1).
pub data ℤ : Type 0 where
  pos : ℕ → ℤ
  negsuc : ℕ → ℤ

-- `int.from_bytes(b, "big")`
abbrev pub from_bytes : Bytes → ℕ
from_bytes = value 256

-- `n.to_bytes(w, "big")`
unfoldable pub to_bytes : ℕ → ℕ → Result Bytes
to_bytes w n = if ltb n (256 ^ w) then ok (digits 256 w n) else err Error.overflow_error

-- `bytes([n])`
unfoldable pub byte : ℕ → Result Bytes
byte n = if ltb n 256 then ok (n ∷ []) else err Error.value_error

-- `struct.pack(">I", n)`
unfoldable pub pack_u32 : ℕ → Result Bytes
pack_u32 n = if ltb n (2 ^ 32) then ok (digits 256 4 n) else err Error.struct_error

-- `struct.pack(">q", t)`: two's complement.
unfoldable pub pack_i64 : ℤ → Result Bytes
pack_i64 (pos n) = if ltb n (2 ^ 63) then ok (digits 256 8 n) else err Error.struct_error
pack_i64 (negsuc n) =
    if ltb n (2 ^ 63) then ok (digits 256 8 (2 ^ 64 - suc n)) else err Error.struct_error

-- The number that eight bytes are in two's complement.
signed_value : Bytes → ℤ
signed_value b = let n = value 256 b in if ltb n (2 ^ 63) then pos n else negsuc (2 ^ 64 - n - 1)

-- `struct.unpack(">q", b)`
unfoldable pub unpack_i64 : Bytes → Result ℤ
unfolding signed_value
unpack_i64 b = if not (length b == 8) then err Error.struct_error else ok (signed_value b)

-- `b[i]`
unfoldable pub index : Bytes → ℕ → Result ℕ
index b i = elim (get_elem? b i) [ none ↦ err Error.index_error | some x ↦ ok x ]

pub index-some : (b : Bytes) (i x : ℕ) → get_elem? b i ≡ some x → index b i ≡ ok x
unfolding index
index-some b i x h = rw (h, index)

pub index_of_lt : (b : Bytes) (i : ℕ) → i < length b → (c : ℕ) × (index b i ≡ ok c)
unfolding index
index_of_lt [] i h = absurd (omega arith)
index_of_lt (x ∷ b) zero h = (x, refl)
index_of_lt (x ∷ b) (suc i) h = index_of_lt b i (omega arith)

pub index-AreBytes : (b : Bytes) (i c : ℕ) → AreBytes b → index b i ≡ ok c → c < 256
unfolding index
index-AreBytes [] i c h e = cc
index-AreBytes (x ∷ b) zero c (hx, h) e = rw (← ok-injective e) hx
index-AreBytes (x ∷ b) (suc i) c (hx, h) e = index-AreBytes b i c h e

-- `a == b`
unfoldable pub equal : Bytes → Bytes → Bool
equal [] [] = true
equal [] (y ∷ ys) = false
equal (x ∷ xs) [] = false
equal (x ∷ xs) (y ∷ ys) = (x == y) && equal xs ys

pub equal_refl : (xs : Bytes) → equal xs xs ≡ true
unfolding equal
equal_refl [] = refl
equal_refl (x ∷ xs) = ground (arith, equal_refl xs)

pub equal→eq : (xs ys : Bytes) → equal xs ys ≡ true → xs ≡ ys
unfolding equal
equal→eq [] [] h = refl
equal→eq [] (y ∷ ys) h = cc
equal→eq (x ∷ xs) [] h = cc
equal→eq (x ∷ xs) (y ∷ ys) h = ground (arith, equal→eq xs ys)

pub ne→equal : (a b : Bytes) → a ≢ b → equal a b ≡ false
ne→equal a b h = elim (Bool-cases (equal a b)) [
  | inl same ↦ absurd (h (equal→eq a b same))
  | inr other ↦ other
]

signed_pos : (n : ℕ) (b : Bytes) → n < 2 ^ 63 → digits 256 8 n ≡ b → signed_value b ≡ pos n
unfolding signed_value
signed_pos n b h e = rw (← e, value-digits_of_lt 256 8 n (omega arith) (omega arith)) (ground arith)

signed_negsuc :
    (n : ℕ) (b : Bytes) → n < 2 ^ 63 → digits 256 8 (2 ^ 64 - suc n) ≡ b → signed_value b ≡ negsuc n
unfolding signed_value
signed_negsuc n b h e =
    rw (← e, value-digits_of_lt 256 8 (2 ^ 64 - suc n) (omega arith) (omega arith)) (ground arith)

digits_shape : (n : ℕ) (b : Bytes) → digits 256 8 n ≡ b → (length b ≡ 8) × AreBytes b
digits_shape n b e = rw (← e) (length-digits 256 8 n, digits-AreDigits 256 8 n (omega arith))

pub pack_i64_shape : (t : ℤ) (b : Bytes) → pack_i64 t ≡ ok b → (length b ≡ 8) × AreBytes b
unfolding pack_i64
pack_i64_shape (pos n) b h = digits_shape n b (ok-injective (if-eq-ok _ _ _ h).1)
pack_i64_shape (negsuc n) b h = digits_shape _ b (ok-injective (if-eq-ok _ _ _ h).1)

signed_value-pack_i64 : (t : ℤ) (b : Bytes) → pack_i64 t ≡ ok b → signed_value b ≡ t
unfolding pack_i64
signed_value-pack_i64 (pos n) b h =
    let (small, e) = if-eq-ok _ _ _ h in signed_pos n b (ltb→lt n _ small) (ok-injective e)
signed_value-pack_i64 (negsuc n) b h =
    let (small, e) = if-eq-ok _ _ _ h in signed_negsuc n b (ltb→lt n _ small) (ok-injective e)

-- What `struct` packs, `struct` unpacks.
pub unpack_i64-pack_i64 : (t : ℤ) (b : Bytes) → pack_i64 t ≡ ok b → unpack_i64 b ≡ ok t
unfolding unpack_i64
unpack_i64-pack_i64 t b h = rw ((pack_i64_shape t b h).0, signed_value-pack_i64 t b h) refl

pub unpack_i64_fits : (b : Bytes) → length b ≡ 8 → (t : ℤ) × (unpack_i64 b ≡ ok t)
unfolding unpack_i64
unpack_i64_fits b h = (signed_value b, rw h refl)

pub pack_u32_shape : (n : ℕ) (b : Bytes) → pack_u32 n ≡ ok b → (n < 2 ^ 32) × (b ≡ digits 256 4 n)
unfolding pack_u32
pack_u32_shape n b h = let (small, e) = if-eq-ok _ _ _ h in (ltb→lt n _ small, sym (ok-injective e))

pub to_bytes-from_bytes : (b : Bytes) → AreBytes b → to_bytes (length b) (from_bytes b) ≡ ok b
unfolding to_bytes
to_bytes-from_bytes b h =
    if_true _ _ (lt→ltb _ _ (value-lt 256 b h)) ∙ ap ok (digits-value 256 b (omega arith) h)

-- A number that fits comes back as that many bytes, which spell it.
pub to_bytes_fits :
    (w n : ℕ)
    → n < 256 ^ w
    → (to_bytes w n ≡ ok (digits 256 w n)) × (from_bytes (digits 256 w n) ≡ n)
unfolding to_bytes
to_bytes_fits w n h = (if_true _ _ (lt→ltb _ _ h), value-digits_of_lt 256 w n (omega arith) h)

abbrev pub IsI64 : ℤ → Type 0
IsI64 (pos n) = n < 2 ^ 63
IsI64 (negsuc n) = n < 2 ^ 63

pub pack_i64_fits : (t : ℤ) → IsI64 t → (b : Bytes) × (pack_i64 t ≡ ok b)
unfolding pack_i64
pack_i64_fits (pos n) h = (digits 256 8 n, ground arith)
pack_i64_fits (negsuc n) h = (digits 256 8 (2 ^ 64 - suc n), ground arith)

pub pack_u32_fits : (n : ℕ) → n < 2 ^ 32 → pack_u32 n ≡ ok (digits 256 4 n)
unfolding pack_u32
pack_u32_fits n h = ground arith

pub byte_fits : (n : ℕ) → n < 256 → byte n ≡ ok (n ∷ [])
unfolding byte
byte_fits n h = ground arith

pub not_empty : (b : Bytes) → b ≢ [] → (length b == 0) ≡ false
not_empty [] h = absurd (h refl)
not_empty (x ∷ b) h = ground arith
