-- ===== src/Envelope/Sections.antt =====
-- The section of the KDF parameters of src/keystonecrypto/envelope.py.
use keystone_crypto.Prelude.{
  ℕ, ◌+◌, ◌-◌, ◌^◌, ◌<◌, ◌≡◌, refl, ◌∙◌, [], ◌++◌, length, slice, take-append, drop-append,
  replicate, length-append, arith,
}
use mathlib.Core.List.{append_assoc}
use keystone_crypto.Digits.{digits, length-digits, value-digits_of_lt}
use keystone_crypto.Errors.{ok}
use keystone_crypto.Bytes.{Bytes, pack_u32, from_bytes}
use keystone_crypto.Kdf.{Argon2Params}
use keystone_crypto.Envelope.{pack_kdf_params, unpack_kdf_params}

abbrev pub IsU32 : ℕ → Type 0
IsU32 n = n < 2 ^ 32

-- The fields that the header has room for.
pub record FitsHeader (p : Argon2Params) : Type 0 where
  pub time_cost_fits : IsU32 p.time_cost
  pub memory_cost_fits : IsU32 p.memory_cost
  pub parallelism_fits : IsU32 p.parallelism
  pub hash_len_fits : IsU32 p.hash_len
  pub version_fits : IsU32 p.version

-- The four bytes of a header field.
abbrev pub u32 : ℕ → Bytes
u32 n = digits 256 4 n

pub kdf_section : Argon2Params → Bytes
kdf_section p =
    u32 p.time_cost
    ++ (u32 p.memory_cost
        ++ (u32 p.parallelism ++ (u32 p.hash_len ++ (u32 p.version ++ replicate 12 0))))

pack_u32_fits : (n : ℕ) → IsU32 n → pack_u32 n ≡ ok (u32 n)
unfolding pack_u32
pack_u32_fits n h = ground arith

pub pack_kdf_params_fits :
    (p : Argon2Params) → FitsHeader p → pack_kdf_params p ≡ ok (kdf_section p)
unfolding pack_kdf_params kdf_section
pack_kdf_params_fits p h = simp (
  pack_u32_fits _ h.time_cost_fits,
  pack_u32_fits _ h.memory_cost_fits,
  pack_u32_fits _ h.parallelism_fits,
  pack_u32_fits _ h.hash_len_fits,
  pack_u32_fits _ h.version_fits,
)

-- The field between `n` and `m` of a text.
field_between :
    (n m v : ℕ) (front rest whole : Bytes)
    → length front ≡ n
    → m ≡ n + 4
    → whole ≡ front ++ (u32 v ++ rest)
    → IsU32 v
    → from_bytes (slice n m whole) ≡ v
field_between n m v front rest whole hn hm e h =
    rw (e, drop-append n front (u32 v ++ rest) hn)
      (rw (take-append (m - n) (u32 v) rest (length-digits 256 4 v ∙ omega arith))
        (value-digits_of_lt 256 4 v (omega arith) h))

pub length-kdf_section : (p : Argon2Params) → length (kdf_section p) ≡ 32
unfolding kdf_section
length-kdf_section p = simp (length-append, length-digits)

-- Reading the parameter section gives the parameters back, with the salt length 16.
pub unpack_kdf_params-kdf_section :
    (p : Argon2Params)
    → FitsHeader p
    → unpack_kdf_params (kdf_section p) ≡ ok (record p { salt_len = 16 })
unfolding unpack_kdf_params kdf_section
unpack_kdf_params-kdf_section p h =
    let t : Bytes = u32 p.time_cost in
    let m : Bytes = u32 p.memory_cost in
    let par : Bytes = u32 p.parallelism in
    let hl : Bytes = u32 p.hash_len in
    let end : Bytes = u32 p.version ++ replicate 12 0 in
    let four : (n : ℕ) → length (u32 n) ≡ 4 = length-digits 256 4 in
    rw (
      length-kdf_section p,
      field_between 0 4 p.time_cost [] _ (kdf_section p) refl refl refl h.time_cost_fits,
      field_between 4 8 p.memory_cost t _ (kdf_section p) (four _) refl refl h.memory_cost_fits,
      field_between 8 12 p.parallelism (t ++ m) (hl ++ end) (kdf_section p)
          (simp (length-append, four)) refl (simp append_assoc) h.parallelism_fits,
      field_between 12 16 p.hash_len (t ++ (m ++ par)) end (kdf_section p)
          (simp (length-append, four)) refl (simp append_assoc) h.hash_len_fits,
      field_between 16 20 p.version (t ++ (m ++ (par ++ hl))) (replicate 12 0) (kdf_section p)
          (simp (length-append, four)) refl (simp append_assoc) h.version_fits,
    )
