-- ===== src/Envelope/Raised.antt =====
-- Which exceptions `Envelope.unpack` (src/keystonecrypto/envelope.py) lets through.
use keystone_crypto.Prelude.{
  ◌+◌, ◌-◌, ◌^◌, All-take, All-drop, sym, ap, ◌∙◌, ℕ, ◌≤◌, ◌<◌, ◌≡◌, ◌≢◌, ◌⊎◌, refl, [], ◌∷◌, false,
  true, length, slice, drop, ltb, some, ◌==◌, ==_iff, inl, inr, arith,
}
use keystone_crypto.Errors.{Error, ok, err, ◌>>=◌, ◌>>◌, require}
use keystone_crypto.Errors.Raises.{Raises, Raises-err, Raises->>=, Raises-if, Raises-check}
use keystone_crypto.Digits.{value-lt}
use keystone_crypto.Envelope.Sections.{FitsHeader}
use keystone_crypto.Bytes.{
  from_bytes, Bytes, AreBytes, index, index-AreBytes, equal, equal_refl, equal→eq,
}
use keystone_crypto.SecretBytes.{SecretBytes}
use keystone_crypto.Kdf.{Argon2, IsSelfContained, derive_key}
use keystone_crypto.Aead.{AesGcm, decrypt}
use keystone_crypto.Envelope.{magic, aad, unpack, unpack_plaintext}
use keystone_crypto.Envelope.StepErrors.{
  IsOpeningError, opening_cases, index-Raises, derive_key-Raises, decrypt-Raises,
  unpack_plaintext-Raises,
}
use keystone_crypto.Envelope.RoundTrip.{hash_of}
use keystone_crypto.Envelope.Rejects.{decrypt_opened, derived_key}
use keystone_crypto.Envelope.Failures.{header_params, length-slice, unpack_kdf_params_lem, aad_fits}

slice_u32 :
    (b : Bytes) (i j : ℕ)
    → AreBytes b
    → j ≡ i + 4
    → j ≤ length b
    → from_bytes (slice i j b) < 2 ^ 32
slice_u32 b i j are four inside =
    let size : length (slice i j b) ≡ 4 = length-slice i j b (omega arith) inside ∙ omega arith in
    let bytes : AreBytes (slice i j b) =
      All-take (λ d. d < 256) (j - i) (drop i b) (All-drop (λ d. d < 256) i b are) in
    rw size at (value-lt 256 (slice i j b) bytes)

header_params-FitsHeader :
    (blob : Bytes) → AreBytes blob → 82 ≤ length blob → FitsHeader (header_params blob)
header_params-FitsHeader blob are long =
    let section : Bytes = slice 6 38 blob in
    let bytes : AreBytes section =
      All-take (λ d. d < 256) 32 (drop 6 blob) (All-drop (λ d. d < 256) 6 blob are) in
    let size : length section ≡ 32 = length-slice 6 38 blob (omega arith) (omega arith) in
    record {
      time_cost_fits = slice_u32 section 0 4 bytes refl (omega arith);
      memory_cost_fits = slice_u32 section 4 8 bytes refl (omega arith);
      parallelism_fits = slice_u32 section 8 12 bytes refl (omega arith);
      hash_len_fits = slice_u32 section 12 16 bytes refl (omega arith);
      version_fits = slice_u32 section 16 20 bytes refl (omega arith);
    }

module _ (argon2 : Argon2) (aes : AesGcm) (blob : Bytes) (password : SecretBytes) where
  -- The hash that the header asks for is no key of the cipher.
  abbrev pub HashIsNoKey : Type 0
  HashIsNoKey =
      (raw : Bytes) × (hash_of argon2 password (header_params blob) (slice 38 54 blob) ≡ ok raw)
      × (length raw ≢ 32)

  -- The hash is a key, the cipher opens the blob under it, and the plaintext says that the seed is
  -- empty.
  abbrev pub SeedIsEmpty : Type 0
  SeedIsEmpty =
      (key plain : Bytes) × (hash_of argon2 password (header_params blob) (slice 38 54 blob)
        ≡ ok key)
      × (aes.decrypt key (slice 54 66 blob) (drop 66 blob) (1 ∷ 1 ∷ []) ≡ some plain)
      × (index plain 0 ≡ ok 0)

  -- The cipher opens the blob under the hash, and the number of the KDF is not 1.
  abbrev pub OtherKdf : Type 0
  OtherKdf =
      (k : ℕ) × (key : Bytes) × (plain : Bytes) × (index blob 5 ≡ ok k)
      × (k ≢ 1)
      × (hash_of argon2 password (header_params blob) (slice 38 54 blob) ≡ ok key)
      × (length key ≡ 32)
      × (aes.decrypt key (slice 54 66 blob) (drop 66 blob) (1 ∷ k ∷ []) ≡ some plain)

  -- The blob is long enough, and has another magic, or another version, or is authentic with another
  -- KDF.
  abbrev pub IsForeign : Type 0
  IsForeign =
      (82 ≤ length blob)
      × ((slice 0 4 blob ≢ magic)
          ⊎ ((slice 0 4 blob ≡ magic) × ((v : ℕ) × (index blob 4 ≡ ok v) × (v ≢ 1)))
          ⊎ ((slice 0 4 blob ≡ magic) × (index blob 4 ≡ ok 1) × OtherKdf))

  abbrev IsOpening : Error → Type 0
  IsOpening = IsOpeningError IsForeign (HashIsNoKey ⊎ SeedIsEmpty)

  differs : (n m : ℕ) → (n == m) ≡ false → n ≢ m
  differs n m h e = ground arith

  unmarked : equal (slice 0 4 blob) magic ≡ false → slice 0 4 blob ≢ magic
  unmarked other same = absurd (clash (equal_refl magic) (rw same at other))
    where
      clash : equal magic magic ≡ true → equal magic magic ≡ false → ⊥
      clash h e = cc

  empty_hash : (raw : Bytes) → length raw ≡ 0 → length raw ≢ 32
  empty_hash raw e h = absurd (omega (arith, e, h))

  -- What is left of `unpack` when the header is read.
  after_header-Raises :
      (k : ℕ)
      → IsSelfContained argon2
      → AreBytes blob
      → 82 ≤ length blob
      → k < 256
      → index blob 5 ≡ ok k
      → (OtherKdf → IsForeign)
      → Raises IsOpening (
          derive_key argon2 (λ n. []) password (header_params blob) (some (slice 38 54 blob))
          >>= λ derived. aad 1 k >>= λ context.
              decrypt aes derived.0 (slice 54 66 blob) (drop 66 blob) context >>= λ plain.
              require (k == 1) Error.keystore_version >> unpack_plaintext plain)
  after_header-Raises k contained are long small at5 foreign =
      Raises->>= IsOpening
        (derive_key argon2 (λ n. []) password (header_params blob) (some (slice 38 54 blob))) _
        (derive_key-Raises argon2 password IsForeign (HashIsNoKey ⊎ SeedIsEmpty)
          (header_params blob) (slice 38 54 blob) contained (header_params-FitsHeader blob are long)
          (length-slice 38 54 blob (omega arith) (omega arith))
          λ raw hashed e. inl (raw, hashed, empty_hash raw e))
        λ derived made. rw (aad_fits k small) (
          Raises->>= IsOpening
            (decrypt aes derived.0 (slice 54 66 blob) (drop 66 blob) (1 ∷ k ∷ [])) _
            (decrypt-Raises aes IsForeign (HashIsNoKey ⊎ SeedIsEmpty) derived.0 (slice 54 66 blob)
              (drop 66 blob) (1 ∷ k ∷ []) (length-slice 54 66 blob (omega arith) (omega arith))
              λ short. inl (
                derived.0.buf,
                derived_key argon2 (λ n. []) password (header_params blob) (slice 38 54 blob)
                    derived made,
                short,
              ))
            λ plain opened.
              let (size, same) =
                decrypt_opened aes derived.0 (slice 54 66 blob) (drop 66 blob) (1 ∷ k ∷ []) plain
                  opened in
              Raises-check IsOpening (k == 1) _ _
                (λ other. foreign (
                  k,
                  derived.0.buf,
                  plain,
                  at5,
                  differs k 1 other,
                  derived_key argon2 (λ n. []) password (header_params blob) (slice 38 54 blob)
                      derived made,
                  size,
                  same,
                ))
                λ k_one. unpack_plaintext-Raises IsForeign (HashIsNoKey ⊎ SeedIsEmpty) plain λ at0.
                  inr (
                    derived.0.buf,
                    plain,
                    derived_key argon2 (λ n. []) password (header_params blob) (slice 38 54 blob)
                        derived made,
                    ap
                          (λ (j : ℕ).
                            aes.decrypt derived.0.buf (slice 54 66 blob) (drop 66 blob)
                              (1 ∷ j ∷ []))
                          (sym ((==_iff k 1).0 k_one))
                        ∙ same,
                    at0,
                  ))

  -- The exceptions of `unpack`.
  unpack-Raises :
      IsSelfContained argon2 → AreBytes blob → Raises IsOpening (unpack argon2 aes blob password)
  unfolding unpack
  unpack-Raises contained are_bytes = Raises-if IsOpening (ltb (length blob) 82) _ _ tt λ long.
      Raises-check IsOpening (equal (slice 0 4 blob) magic) _ _
        (λ other. (enough (length blob) long, inl (unmarked other)))
        λ marked.
          Raises->>= IsOpening (index blob 4) _
            (index-Raises IsOpening blob 4 (omega (arith, enough (length blob) long)))
            λ v at4.
              Raises-check IsOpening (v == 1) _ _
                (λ other. (
                  enough (length blob) long,
                  inr (inl (equal→eq (slice 0 4 blob) magic marked, (v, at4, differs v 1 other))),
                ))
                λ v_one.
                  Raises->>= IsOpening (index blob 5) _
                    (index-Raises IsOpening blob 5 (omega (arith, enough (length blob) long)))
                    λ k at5.
                      rw
                        (unpack_kdf_params_lem (slice 6 38 blob) blob refl (
                          length-slice 6 38 blob (omega arith)
                            (omega (arith, enough (length blob) long))))
                        (rw ((==_iff v 1).0 v_one) (
                          after_header-Raises k contained are_bytes (enough (length blob) long)
                            (index-AreBytes blob 5 k are_bytes at5) at5
                            λ other. (
                              enough (length blob) long,
                              inr (
                                  inr (
                                    equal→eq (slice 0 4 blob) magic marked,
                                    at4 ∙ ap ok ((==_iff v 1).0 v_one),
                                    other,
                                  )),
                            )))
    where
      enough : (n : ℕ) → ltb n 82 ≡ false → 82 ≤ n
      enough n h = ground arith

  -- What `unpack` raises, whatever bytes it is given: a failed decryption, another version, an
  -- exception of argon2, or a `ValueError`. It is another version only if the blob has 82 bytes or more
  -- and another magic, or another version byte, or opens under the password with another KDF number. It
  -- is `ValueError` only if the hash that the header asks for has not the length of a key, or if the
  -- cipher opens the blob and the plaintext says that the seed is empty. Argon2 raises its own exceptions
  -- only. No `IndexError` or `struct.error` gets out.
  pub unpack_raises :
      IsSelfContained argon2
      → AreBytes blob
      → (e : Error) → unpack argon2 aes blob password ≡ err e
      → (e ≡ Error.keystore_decryption)
        ⊎ ((e ≡ Error.keystore_version) × IsForeign)
        ⊎ (e ≡ Error.foreign)
        ⊎ ((e ≡ Error.value_error) × (HashIsNoKey ⊎ SeedIsEmpty))
  unpack_raises contained are_bytes e raised =
      opening_cases IsForeign (HashIsNoKey ⊎ SeedIsEmpty) e (
        Raises-err IsOpening (unpack argon2 aes blob password) (unpack-Raises contained are_bytes)
          raised)
