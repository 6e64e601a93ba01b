-- ===== src/Envelope/Blob.antt =====
-- The keystore blob of src/keystonecrypto/envelope.py, section by section.
use keystone_crypto.Prelude.{
  ℕ, ◌+◌, ◌≤◌, ◌≡◌, refl, sym, ap, ◌∙◌, [], ◌∷◌, ◌++◌, length, slice, drop, drop-append,
  slice-append, length-append, some, le→ltb, ◌==◌, arith,
}
use mathlib.Core.List.{append_assoc}
use keystone_crypto.Errors.{Error, Result, ◌>>=◌, ◌>>◌, require}
use keystone_crypto.Bytes.{Bytes, index-some, equal_refl}
use keystone_crypto.SecretBytes.{SecretBytes}
use keystone_crypto.Kdf.{Argon2, Argon2Params, derive_key}
use keystone_crypto.Aead.{AesGcm, decrypt}
use keystone_crypto.Envelope.{unpack_plaintext, UnpackedKeystore, magic, aad, unpack}
use keystone_crypto.Envelope.Sections.{
  FitsHeader, kdf_section, length-kdf_section, unpack_kdf_params-kdf_section,
}

-- The blob, section by section.
abbrev pub blob_of : ℕ → Argon2Params → Bytes → Bytes → Bytes → Bytes
blob_of kdf_id params salt nonce ct =
    magic ++ ((1 ∷ kdf_id ∷ []) ++ (kdf_section params ++ (salt ++ (nonce ++ ct))))

module _ (kdf_id : ℕ) (params : Argon2Params) (salt nonce ct : Bytes) (h16 : length salt ≡ 16)
    (h12 : length nonce ≡ 12) where
  kdf_slice : slice 6 38 (blob_of kdf_id params salt nonce ct) ≡ kdf_section params
  kdf_slice =
      slice-append 6 38 (magic ++ (1 ∷ kdf_id ∷ [])) (kdf_section params) _ refl
        (omega (arith, length-kdf_section params))

  front_length : length (magic ++ ((1 ∷ kdf_id ∷ []) ++ kdf_section params)) ≡ 38
  front_length = omega (arith, length-kdf_section params)

  salt_slice : slice 38 54 (blob_of kdf_id params salt nonce ct) ≡ salt
  salt_slice =
      ap (slice 38 54) (regroup (kdf_section params))
      ∙ slice-append 38 54 (magic ++ ((1 ∷ kdf_id ∷ []) ++ kdf_section params)) salt (nonce ++ ct)
          front_length (omega arith)
    where
      regroup :
          (k : Bytes)
          → magic ++ ((1 ∷ kdf_id ∷ []) ++ (k ++ (salt ++ (nonce ++ ct))))
            ≡ (magic ++ ((1 ∷ kdf_id ∷ []) ++ k)) ++ (salt ++ (nonce ++ ct))
      regroup k = simp append_assoc

  to_nonce : Bytes
  to_nonce = magic ++ ((1 ∷ kdf_id ∷ []) ++ (kdf_section params ++ salt))

  length-to_nonce : length to_nonce ≡ 54
  unfolding to_nonce
  length-to_nonce =
      omega (arith, length-kdf_section params, length-append (kdf_section params) salt)

  blob-to_nonce : blob_of kdf_id params salt nonce ct ≡ to_nonce ++ (nonce ++ ct)
  unfolding to_nonce
  blob-to_nonce = simp append_assoc

  nonce_slice : slice 54 66 (blob_of kdf_id params salt nonce ct) ≡ nonce
  nonce_slice =
      ap (slice 54 66) blob-to_nonce
      ∙ slice-append 54 66 to_nonce nonce ct length-to_nonce (omega arith)

  ct_slice : drop 66 (blob_of kdf_id params salt nonce ct) ≡ ct
  ct_slice =
      ap (drop 66) (blob-to_nonce ∙ sym (append_assoc to_nonce nonce ct))
      ∙ drop-append 66 (to_nonce ++ nonce) ct
          (length-append to_nonce nonce ∙ omega (arith, length-to_nonce))

  pub blob_length : length (blob_of kdf_id params salt nonce ct) ≡ 66 + length ct
  blob_length =
      ap length blob-to_nonce
      ∙ length-append to_nonce (nonce ++ ct)
      ∙ omega (arith, length-to_nonce, length-append nonce ct)

module _ (argon2 : Argon2) (aes : AesGcm) where
  -- What `unpack` does behind the checks of the header.
  unfoldable pub open_sealed :
      Bytes → Argon2Params → ℕ → Bytes → Bytes → SecretBytes → Result UnpackedKeystore
  open_sealed salt params kdf_id nonce ct password = do
    derived ← derive_key argon2 (λ n. []) password params (some salt)
    context ← aad 1 kdf_id
    plaintext ← decrypt aes derived.0 nonce ct context
    require (kdf_id == 1) Error.keystore_version
    unpack_plaintext plaintext

  -- On a blob with a good magic and version, `unpack` opens what the sections say.
  pub unpack-blob_of :
      (kdf_id : ℕ) (params : Argon2Params) (salt nonce ct : Bytes) (password : SecretBytes)
      → length salt ≡ 16
      → length nonce ≡ 12
      → 16 ≤ length ct
      → FitsHeader params
      → unpack argon2 aes (blob_of kdf_id params salt nonce ct) password
        ≡ open_sealed salt (record params { salt_len = 16 }) kdf_id nonce ct password
  unfolding unpack open_sealed
  unpack-blob_of kdf_id params salt nonce ct password h16 h12 long fits =
      let blob : Bytes = blob_of kdf_id params salt nonce ct in
      rw (
        le→ltb (length blob) 82 (omega (arith, blob_length kdf_id params salt nonce ct h16 h12)),
        equal_refl magic,
        index-some blob 4 1 refl,
        index-some blob 5 kdf_id refl,
        kdf_slice kdf_id params salt nonce ct h16 h12,
        unpack_kdf_params-kdf_section params fits,
        salt_slice kdf_id params salt nonce ct h16 h12,
        nonce_slice kdf_id params salt nonce ct h16 h12,
        ct_slice kdf_id params salt nonce ct h16 h12,
      )
