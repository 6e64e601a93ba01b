-- ===== src/Derivation.antt =====
-- src/keystonecrypto/derivation.py: derivation paths and extended private keys.
pub mod Parse
pub mod Bip32
pub mod Children
pub mod Returns
pub mod Ckd
pub mod Serialized
pub mod Exported
pub mod Descends
use keystone_crypto.Prelude.{
  ℕ, zero, suc, ◌+◌, ◌-◌, ◌*◌, ◌%◌, ◌^◌, List, [], ◌∷◌, ◌++◌, Bool, true, false, ◌&&◌, ◌||◌, not,
  Option, none, some, length, take, drop, ltb, leb, ◌==◌, if◌then◌else◌, reverse,
}
use keystone_crypto.Errors.{Error, Result, ok, err, ◌>>=◌, ◌>>◌, require}
use keystone_crypto.Bytes.{Bytes, ℤ, pos, negsuc, byte, pack_u32, from_bytes, to_bytes, equal}
use keystone_crypto.Text.{Str, codes}
use keystone_crypto.Unicode.{Unicode, strip}
use keystone_crypto.Hashes.{Hashes}
use keystone_crypto.SecretBytes.{SecretBytes, new}
use keystone_crypto.Signing.{Secp256k1}
use keystone_crypto.Mnemonic.{traverse}
use keystone_crypto.Base58.{b58encode}

abbrev pub hardened_offset : ℕ
hardened_offset = 0x80000000

abbrev pub max_child_index : ℕ
max_child_index = 0xFFFFFFFF

-- Order of the secp256k1 prime-order subgroup.
abbrev pub secp256k1_n : ℕ
secp256k1_n = 0xFFFFFFFFFFFFFFFFFFFFFFFFFFFFFFFEBAAEDCE6AF48A03BBFD25E8CD0364141

pub record DerivationPath : Type 0 where
  pub indices : List (ℤ × Bool)

cons_char : ℕ → List Str → List Str
cons_char c [] = (c ∷ []) ∷ []
cons_char c (p ∷ ps) = (c ∷ p) ∷ ps

-- `s.split("/")`, in the character `sep`
unfoldable pub split_at : ℕ → Str → List Str
unfolding cons_char
split_at sep [] = [] ∷ []
split_at sep (c ∷ s) =
    let parts = split_at sep s in if c == sep then [] ∷ parts else cons_char c parts

pub is_mark : ℕ → Bool
is_mark c = c == b'\'' || c == b'h'

-- On the reversed text: `part.endswith("'") or part.endswith("h")`, and `part.rstrip("'h")`.
starts_marked : Str → Bool
unfolding is_mark
starts_marked [] = false
starts_marked (c ∷ s) = is_mark c

drop_marks : Str → Str
unfolding is_mark
drop_marks [] = []
drop_marks (c ∷ s) = if is_mark c then drop_marks s else c ∷ s

unfoldable pub is_hardened : Str → Bool
unfolding starts_marked
is_hardened part = starts_marked (reverse part)

unfoldable pub rstrip_marks : Str → Str
unfolding drop_marks
rstrip_marks part = reverse (drop_marks (reverse part))

all_digits : Unicode → Str → Bool
all_digits u [] = true
all_digits u (c ∷ s) = u.is_digit c && all_digits u s

-- `s.isdigit()`
unfoldable pub is_digits : Unicode → Str → Bool
unfolding all_digits
is_digits u [] = false
is_digits u (c ∷ s) = all_digits u (c ∷ s)

next_value : Option ℕ → ℕ → Result ℕ
next_value none n = err Error.value_error
next_value (some d) n = ok (n * 10 + d)

unfoldable pub read_digits : Unicode → Str → ℕ → Result ℕ
unfolding next_value
read_digits u [] n = ok n
read_digits u (c ∷ s) n = do m ← next_value (u.decimal_value c) n; read_digits u s m

-- `int(s)` of a text of digits; Python refuses more than 4300 of them, and a digit that is no
-- decimal one, with `ValueError`.
unfoldable pub int_of_str : Unicode → Str → Result ℕ
int_of_str u s = if ltb 4300 (length s) then err Error.value_error else read_digits u s 0

unfoldable pub parse_part : Unicode → Str → Result (ℤ × Bool)
parse_part u part = do
  let hardened = is_hardened part
  let num_str = rstrip_marks part
  require (is_digits u num_str) Error.invalid_derivation_path
  idx ← int_of_str u num_str
  require (not (ltb 0x7FFFFFFF idx)) Error.invalid_derivation_path
  ok (pos idx, hardened)

starts_with_m : Str → Bool
starts_with_m (c ∷ d ∷ s) = c == b'm' && d == b'/'
starts_with_m (c ∷ []) = false
starts_with_m [] = false

unfoldable pub parse : Unicode → Str → Result DerivationPath
unfolding starts_with_m
parse u text =
    let s = strip u text in
    if equal s [] || equal s (codes "m")
    then ok (record { indices = [] })
    else if not (starts_with_m s)
    then err Error.invalid_derivation_path
    else do out ← traverse (parse_part u) (split_at b'/' (drop 2 s)); ok (record { indices = out })

pub record ExtendedPrivateKey : Type 0 where
  pub secret_key : SecretBytes
  pub chain_code : SecretBytes
  pub depth : ℕ
  pub parent_fingerprint : Bytes
  pub child_number : ℕ

-- The child number of an index.
unfoldable pub effective_index : ℕ → Bool → ℕ
effective_index i hardened = if hardened then i + hardened_offset else i

unfoldable pub version_of : Str → Result Bytes
version_of network =
    if equal network (codes "mainnet")
    then ok (0x04 ∷ 0x88 ∷ 0xad ∷ 0xe4 ∷ [])
    else if equal network (codes "testnet")
    then ok (0x04 ∷ 0x35 ∷ 0x83 ∷ 0x94 ∷ [])
    else err Error.key_error

module _ (h : Hashes) (curve : Secp256k1) where
  unfoldable pub master : SecretBytes → Result ExtendedPrivateKey
  master seed = do
    let i = h.hmac_sha512 (codes "Bitcoin seed") seed.buf
    sk ← new (take 32 i)
    cc ← new (drop 32 i)
    ok (record {
      secret_key = sk;
      chain_code = cc;
      depth = 0;
      parent_fingerprint = 0 ∷ 0 ∷ 0 ∷ 0 ∷ [];
      child_number = 0;
    })

  unfoldable pub fingerprint : ExtendedPrivateKey → Result Bytes
  fingerprint self = do
    sk ← curve.private_key self.secret_key.buf
    ok (take 4 (h.ripemd160 (h.sha256 (curve.public_key sk))))

  -- What is hashed for the child: the private key for a hardened child, else the public key.
  unfoldable pub child_data : ExtendedPrivateKey → ℕ → Result Bytes
  child_data self index =
      if not (ltb index hardened_offset)
      then (do i ← pack_u32 index; ok (0 ∷ (self.secret_key.buf ++ i)))
      else do
        sk ← curve.private_key self.secret_key.buf
        i ← pack_u32 index
        ok (curve.public_key sk ++ i)

  unfoldable pub derive_index : ExtendedPrivateKey → ℕ → Result ExtendedPrivateKey
  derive_index self index = do
    require (not (ltb max_child_index index)) Error.value_error
    d ← child_data self index
    let i = h.hmac_sha512 self.chain_code.buf d
    let il = take 32 i
    let ir = drop 32 i
    let il_int = from_bytes il
    let kpar_int = from_bytes self.secret_key.buf
    require (ltb il_int secp256k1_n) Error.value_error
    let child_int = (il_int + kpar_int) % secp256k1_n
    require (not (child_int == 0)) Error.value_error
    child_key ← to_bytes 32 child_int
    sk ← new child_key
    cc ← new ir
    fp ← fingerprint self
    ok (record {
      secret_key = sk;
      chain_code = cc;
      depth = self.depth + 1;
      parent_fingerprint = fp;
      child_number = index;
    })

  unfoldable pub derive : ExtendedPrivateKey → ℤ → Bool → Result ExtendedPrivateKey
  unfolding derive_index
  derive self (negsuc i) hardened = err Error.value_error
  derive self (pos i) hardened =
      if ltb 0x7FFFFFFF i
      then err Error.value_error
      else derive_index self (effective_index i hardened)

  -- The loop of `derive_from_seed`.
  unfoldable pub derive_path : ExtendedPrivateKey → List (ℤ × Bool) → Result ExtendedPrivateKey
  derive_path key [] = ok key
  derive_path key ((i, hardened) ∷ rest) = do child ← derive key i hardened; derive_path child rest

  unfoldable pub derive_from_seed : SecretBytes → DerivationPath → Result ExtendedPrivateKey
  derive_from_seed seed path = do key ← master seed; derive_path key path.indices

  -- The 78 bytes that are encoded.
  unfoldable pub serialized : Bytes → ExtendedPrivateKey → Result Bytes
  serialized version self = do
    depth ← byte self.depth
    child ← pack_u32 self.child_number
    ok (
        version
        ++ (depth
            ++ (self.parent_fingerprint
                ++ (child ++ (self.chain_code.buf ++ (0 ∷ self.secret_key.buf))))))

  unfoldable pub to_base58 : ExtendedPrivateKey → Str → Result Str
  to_base58 self network = do
    version ← version_of network
    raw ← serialized version self
    let checksum = take 4 (h.sha256 (h.sha256 raw))
    b58encode (raw ++ checksum)
