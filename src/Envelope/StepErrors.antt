-- ===== src/Envelope/StepErrors.antt =====
-- The exceptions of the steps of `Envelope.unpack` (src/keystonecrypto/envelope.py).
use keystone_crypto.Prelude.{
  ℕ, ◌+◌, ◌≤◌, ◌<◌, ◌≡◌, ◌≢◌, ◌⊎◌, refl, ◌∙◌, [], false, true, length, slice, ltb, none, some,
  Option, ◌==◌, not, ap, ==_refl, ==_iff, Bool-cases, inl, inr, arith,
}
use keystone_crypto.Errors.{Error, ok}
use keystone_crypto.Errors.Raises.{Raises, Raises->>=, Raises-if, Raises-require, Raises-weaken}
use keystone_crypto.Bytes.{Bytes, ℤ, index, index_of_lt, unpack_i64, unpack_i64_fits}
use keystone_crypto.SecretBytes.{SecretBytes, new}
use keystone_crypto.Kdf.{Argon2, Argon2Params, IsSelfContained, derive_key, hash_with}
use keystone_crypto.Aead.{AesGcm, decrypt, as_key, or_decryption_error}
use keystone_crypto.Envelope.{unpack_plaintext}
use keystone_crypto.Envelope.Sections.{FitsHeader}
use keystone_crypto.Envelope.RoundTrip.{hash_of}
use keystone_crypto.Envelope.Failures.{length-slice}

-- The exceptions of reading a blob; another version and `ValueError` have reasons.
abbrev pub IsOpeningError : Type 0 → Type 0 → Error → Type 0
IsOpeningError other reason Error.keystore_decryption = Unit
IsOpeningError other reason Error.keystore_version = other
IsOpeningError other reason Error.foreign = Unit
IsOpeningError other reason Error.value_error = reason
IsOpeningError other reason _ = ⊥

pub opening_cases :
    (other reason : Type 0) (e : Error)
    → IsOpeningError other reason e
    → (e ≡ Error.keystore_decryption)
      ⊎ ((e ≡ Error.keystore_version) × other)
      ⊎ (e ≡ Error.foreign)
      ⊎ ((e ≡ Error.value_error) × reason)
opening_cases other reason Error.keystore_decryption h = inl refl
opening_cases other reason Error.keystore_version h = inr (inl (refl, h))
opening_cases other reason Error.foreign h = inr (inr (inl refl))
opening_cases other reason Error.value_error h = inr (inr (inr (refl, h)))
opening_cases other reason _ h = absurd h

pub index-Raises : (P : Error → Type 0) (b : Bytes) (i : ℕ) → i < length b → Raises P (index b i)
index-Raises P b i h = let (c, e) = index_of_lt b i h in rw e tt

pub new-Raises :
    (P : Error → Type 0) (raw : Bytes) → (length raw ≡ 0 → P Error.value_error) → Raises P (new raw)
unfolding new
new-Raises P raw h = elim (Bool-cases (length raw == 0)) [
  | inl zero ↦ rw zero (h ((==_iff (length raw) 0).0 zero))
  | inr full ↦ rw full tt
]

foreign_opens :
    (other reason : Type 0) (e : Error) → e ≡ Error.foreign → IsOpeningError other reason e
foreign_opens other reason e h = rw h tt

pub derive_key-Raises :
    (argon2 : Argon2) (password : SecretBytes) (other reason : Type 0) (params : Argon2Params)
    (salt : Bytes)
    → IsSelfContained argon2
    → FitsHeader params
    → length salt ≡ params.salt_len
    → ((raw : Bytes) → hash_of argon2 password params salt ≡ ok raw → length raw ≡ 0 → reason)
    → Raises (IsOpeningError other reason) (derive_key argon2 (λ n. []) password params (some salt))
unfolding derive_key hash_with new
derive_key-Raises argon2 password other reason params salt contained fits same empty =
    rw (same, ==_refl params.salt_len)
      (Raises->>= (IsOpeningError other reason) (hash_of argon2 password params salt) _
        (Raises-weaken _ _ (hash_of argon2 password params salt) (foreign_opens other reason) (
          contained.raises password.buf salt params.time_cost params.memory_cost params.parallelism
            params.hash_len params.version fits.time_cost_fits fits.memory_cost_fits
            fits.parallelism_fits fits.hash_len_fits fits.version_fits))
        λ raw hashed.
          Raises->>= (IsOpeningError other reason) (new raw) _
            (new-Raises (IsOpeningError other reason) raw (empty raw hashed)) λ key made. tt)

as_key-Raises :
    (other reason : Type 0) (key : SecretBytes)
    → (length key.buf ≢ 32 → reason)
    → Raises (IsOpeningError other reason) (as_key key)
unfolding as_key
as_key-Raises other reason key short = elim (Bool-cases (length key.buf == 32)) [
  | inl fits ↦ rw fits tt
  | inr differs ↦ rw differs (short (λ e. other_length e differs))
]
  where
    other_length : {n : ℕ} → n ≡ 32 → (n == 32) ≡ false → ⊥
    other_length e h = ground arith

or_decryption_error-Raises :
    (other reason : Type 0) (r : Option Bytes)
    → Raises (IsOpeningError other reason) (or_decryption_error r)
unfolding or_decryption_error
or_decryption_error-Raises other reason none = tt
or_decryption_error-Raises other reason (some plain) = tt

pub decrypt-Raises :
    (aes : AesGcm) (other reason : Type 0) (key : SecretBytes) (nonce ct context : Bytes)
    → length nonce ≡ 12
    → (length key.buf ≢ 32 → reason)
    → Raises (IsOpeningError other reason) (decrypt aes key nonce ct context)
unfolding decrypt as_key or_decryption_error
decrypt-Raises aes other reason key nonce ct context same short = rw same (
    Raises->>= (IsOpeningError other reason) (as_key key) _ (as_key-Raises other reason key short)
      λ raw made. or_decryption_error-Raises other reason (aes.decrypt raw nonce ct context))

pub unpack_plaintext-Raises :
    (other reason : Type 0) (plain : Bytes)
    → (index plain 0 ≡ ok 0 → reason)
    → Raises (IsOpeningError other reason) (unpack_plaintext plain)
unfolding unpack_plaintext new
unpack_plaintext-Raises other reason plain empty =
    Raises-if opening (ltb (length plain) 16) _ _ tt λ long.
      Raises->>= opening (index plain 0) _
        (index-Raises opening plain 0 (at_least (length plain) long))
        λ seed_len at0.
          Raises-require opening (not (ltb (length plain) (1 + seed_len + 8 + 1 + 6))) _ _ tt
            λ whole.
              Raises->>= opening (new (slice 1 (1 + seed_len) plain)) _
                (new-Raises opening (slice 1 (1 + seed_len) plain)
                  (no_seed seed_len at0 (room (length plain) seed_len whole)))
                λ seed made.
                  let (stamp, read) = stamp_read seed_len (room (length plain) seed_len whole) in
                  rw read (
                    Raises->>= opening (index plain (1 + seed_len + 8)) _
                      (index-Raises opening plain (1 + seed_len + 8)
                        (omega (arith, room (length plain) seed_len whole)))
                      λ flags _. tt)
  where
    opening : Error → Type 0
    opening = IsOpeningError other reason

    at_least : (n : ℕ) → ltb n 16 ≡ false → 0 < n
    at_least n h = ground arith

    room : (n k : ℕ) → not (ltb n (1 + k + 8 + 1 + 6)) ≡ true → k + 16 ≤ n
    room n k h = ground arith

    stamp_read :
        (k : ℕ)
        → k + 16 ≤ length plain
        → (t : ℤ) × (unpack_i64 (slice (1 + k) (1 + k + 8) plain) ≡ ok t)
    stamp_read k fits =
        unpack_i64_fits (slice (1 + k) (1 + k + 8) plain)
          (length-slice (1 + k) (1 + k + 8) plain (omega arith) (omega arith) ∙ omega arith)

    no_seed :
        (k : ℕ)
        → index plain 0 ≡ ok k
        → k + 16 ≤ length plain
        → length (slice 1 (1 + k) plain) ≡ 0
        → reason
    no_seed k at0 fits e =
        empty
          (at0 ∙ ap ok (omega (arith, e, length-slice 1 (1 + k) plain (omega arith) (omega arith))))
