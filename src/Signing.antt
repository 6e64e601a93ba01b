-- ===== src/Signing.antt =====
-- src/keystonecrypto/signing.py: signatures, the three signers, and the DER helpers. The curve
-- libraries are parameters.
pub mod Der
pub mod Verify
pub mod Length
pub mod StrictDer
pub mod Signs
use keystone_crypto.Prelude.{
  ℕ, zero, suc, ◌+◌, ◌-◌, ◌*◌, ◌/◌, ◌%◌, List, [], ◌∷◌, ◌++◌, Bool, true, false, ◌&&◌, ◌||◌, not,
  Option, none, some, length, take, drop, slice, replicate, ltb, leb, ◌==◌, if◌then◌else◌,
}
use keystone_crypto.Errors.{Error, Result, ok, err, ◌>>=◌, ◌>>◌, require}
use keystone_crypto.Bytes.{Bytes, byte, index, equal}
use keystone_crypto.Text.{Str, codes}
use keystone_crypto.Hashes.{Hashes}
use keystone_crypto.SecretBytes.{SecretBytes}

-- coincurve: `PrivateKey(raw)`, the compressed public key, `sign` of a digest,
-- `sign_schnorr` of a digest and fresh randomness, and
-- `PublicKey(pk).verify(der, digest)`, which may raise. A key object is its 32 bytes.
pub record Secp256k1 : Type 0 where
  pub private_key : Bytes → Result Bytes
  pub public_key : Bytes → Bytes
  pub sign : Bytes → Bytes → Result Bytes
  pub sign_schnorr : Bytes → Bytes → Bytes → Result Bytes
  pub verify : Bytes → Bytes → Bytes → Result Bool

-- `cryptography`: the same for Ed25519; `verify` raises unless the signature is good.
pub record Ed25519 : Type 0 where
  pub private_key : Bytes → Result Bytes
  pub public_key : Bytes → Bytes
  pub sign : Bytes → Bytes → Bytes
  pub verify : Bytes → Bytes → Bytes → Result (Unit {0})

abbrev pub ecdsa : Str
ecdsa = codes "ecdsa-secp256k1"

abbrev pub schnorr : Str
schnorr = codes "schnorr-secp256k1"

abbrev pub ed25519 : Str
ed25519 = codes "ed25519"

-- `b.rjust(w, b"\x00")`
unfoldable pub rjust : ℕ → Bytes → Bytes
rjust w b = replicate (w - length b) 0 ++ b

-- `if len(r) == 33 and r[0] == 0: r = r[1:]`
unfoldable pub drop_sign : Bytes → Bytes
drop_sign [] = []
drop_sign (x ∷ xs) = if length (x ∷ xs) == 33 && x == 0 then xs else x ∷ xs

unfoldable pub der_to_rs : Bytes → Result (Bytes × Bytes)
der_to_rs der = do
  tag ← index der 0
  require (tag == 0x30) Error.signature
  len ← index der 1
  require (len + 2 == length der) Error.signature
  r_tag ← index der 2
  require (r_tag == 0x02) Error.signature
  r_len ← index der 3
  let r = slice 4 (4 + r_len) der
  let s_off = 4 + r_len
  s_tag ← index der s_off
  require (s_tag == 0x02) Error.signature
  s_len ← index der (s_off + 1)
  let s = slice (s_off + 2) (s_off + 2 + s_len) der
  let r' = drop_sign r
  let s' = drop_sign s
  require (not (ltb 32 (length r') || ltb 32 (length s'))) Error.signature
  ok (rjust 32 r', rjust 32 s')

-- `while i < len(x) - 1 and x[i] == 0: i += 1`, then `x[i:]`
unfoldable pub strip_zeros : Bytes → Bytes
strip_zeros [] = []
strip_zeros (x ∷ []) = x ∷ []
strip_zeros (x ∷ y ∷ ys) = if x == 0 then strip_zeros (y ∷ ys) else x ∷ y ∷ ys

-- A zero in front if the high bit is set: `body[0] & 0x80`.
unfoldable pub add_sign : Bytes → Result Bytes
add_sign [] = err Error.index_error
add_sign (x ∷ xs) = ok (if x / 128 % 2 == 1 then 0 ∷ x ∷ xs else x ∷ xs)

unfoldable pub encode_int : Bytes → Result Bytes
encode_int x = do
  body ← add_sign (strip_zeros x)
  len ← byte (length body)
  ok (0x02 ∷ (len ++ body))

unfoldable pub rs_to_der : Bytes → Bytes → Result Bytes
rs_to_der r s = do
  require (not (not (length r == 32) || not (length s == 32))) Error.signature
  r_enc ← encode_int r
  s_enc ← encode_int s
  let body = r_enc ++ s_enc
  len ← byte (length body)
  ok (0x30 ∷ (len ++ body))

pub record Signature : Type 0 where
  pub scheme : Str
  pub raw : Bytes
  pub public_key : Bytes

abbrev pub serialize : Signature → Bytes
serialize self = self.raw

or_own : Option Bytes → Bytes → Bytes
or_own none own = own
or_own (some pk) own = pk

-- `except Exception: return False`
unfoldable pub or_false : Result Bool → Bool
or_false (ok b) = b
or_false (err e) = false

unfoldable pub returns : Result (Unit {0}) → Bool
returns (ok _) = true
returns (err e) = false

module _ (h : Hashes) (curve : Secp256k1) (ed : Ed25519) where
  unfoldable pub verify_ecdsa : Bytes → Bytes → Bytes → Bool
  unfolding or_false
  verify_ecdsa raw message pk = or_false do
    let msg_hash = h.sha256 message
    der ← rs_to_der (take 32 raw) (drop 32 raw)
    curve.verify pk der msg_hash

  unfoldable pub verify : Signature → Bytes → Option Bytes → Result Bool
  unfolding or_own returns
  verify self message public_key =
      let pk = or_own public_key self.public_key in
      if equal self.scheme ecdsa
      then ok (verify_ecdsa self.raw message pk)
      else if equal self.scheme schnorr
      then ok (not (not (length self.raw == 64) || equal self.raw (replicate 64 0)))
      else if equal self.scheme ed25519
      then ok (returns (ed.verify pk self.raw message))
      else err Error.signature

-- The subclasses of `Signer`, each with its key object.
pub data Signer : Type 0 where
  secp256k_signer : Bytes → Signer
  secp256k_schnorr_signer : Bytes → Signer
  ed25519_signer : Bytes → Signer

unfoldable pub scheme_of : Signer → Str
scheme_of (secp256k_signer _) = ecdsa
scheme_of (secp256k_schnorr_signer _) = schnorr
scheme_of (ed25519_signer _) = ed25519

-- The length check of the three constructors.
unfoldable pub key_bytes : SecretBytes → Result Bytes
key_bytes secret_key =
    if not (length secret_key.buf == 32) then err Error.value_error else ok secret_key.buf

module _ (h : Hashes) (curve : Secp256k1) (ed : Ed25519) where
  unfoldable pub new_secp256k_signer : SecretBytes → Result Signer
  unfolding key_bytes
  new_secp256k_signer secret_key = do
    raw ← key_bytes secret_key
    sk ← curve.private_key raw
    ok (secp256k_signer sk)

  unfoldable pub new_schnorr_signer : SecretBytes → Result Signer
  unfolding key_bytes
  new_schnorr_signer secret_key = do
    raw ← key_bytes secret_key
    sk ← curve.private_key raw
    ok (secp256k_schnorr_signer sk)

  unfoldable pub new_ed25519_signer : SecretBytes → Result Signer
  unfolding key_bytes
  new_ed25519_signer secret_key = do
    raw ← key_bytes secret_key
    sk ← ed.private_key raw
    ok (ed25519_signer sk)

  -- `Secp256kSigner.public_key_bytes`, and those of the two other signers
  abbrev pub secp256k_public_key : Bytes → Bytes
  secp256k_public_key sk = curve.public_key sk

  abbrev pub schnorr_public_key : Bytes → Bytes
  schnorr_public_key sk = drop 1 (curve.public_key sk)

  abbrev pub ed25519_public_key : Bytes → Bytes
  ed25519_public_key sk = ed.public_key sk

  unfoldable pub public_key_bytes : Signer → Bytes
  public_key_bytes (secp256k_signer sk) = secp256k_public_key sk
  public_key_bytes (secp256k_schnorr_signer sk) = schnorr_public_key sk
  public_key_bytes (ed25519_signer sk) = ed25519_public_key sk

  -- `Secp256kSigner.sign`, and those of the two other signers; `aux` is the randomness that coincurve
  -- draws in this call.
  abbrev pub secp256k_sign : Bytes → Bytes → Result Signature
  secp256k_sign sk message = do
    let msg_hash = h.sha256 message
    der ← curve.sign sk msg_hash
    rs ← der_to_rs der
    ok (record { scheme = ecdsa; raw = rs.0 ++ rs.1; public_key = secp256k_public_key sk })

  abbrev pub schnorr_sign : Bytes → Bytes → Bytes → Result Signature
  schnorr_sign sk message aux = do
    let msg_hash = h.sha256 message
    sig ← curve.sign_schnorr sk msg_hash aux
    ok (record { scheme = schnorr; raw = sig; public_key = schnorr_public_key sk })

  abbrev pub ed25519_sign : Bytes → Bytes → Result Signature
  ed25519_sign sk message =
      ok (record { scheme = ed25519; raw = ed.sign sk message; public_key = ed25519_public_key sk })

  unfoldable pub sign : Signer → Bytes → Bytes → Result Signature
  sign (secp256k_signer sk) message aux = secp256k_sign sk message
  sign (secp256k_schnorr_signer sk) message aux = schnorr_sign sk message aux
  sign (ed25519_signer sk) message aux = ed25519_sign sk message
