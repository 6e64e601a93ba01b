-- ===== src/Entropy/Laws.antt =====
-- `generate_entropy` (src/keystonecrypto/entropy.py) on all sizes.
use keystone_crypto.Prelude.{
  ◌-◌, refl, ◌∙◌, ◌⊎◌, inl, inr, Bool-cases, ℕ, ◌/◌, ◌%◌, ◌≤◌, ◌≡◌, sym, ap, length, not, ltb, ◌||◌,
  ◌==◌, false, arith,
}
use mathlib.Core.Logic.{◌↔◌}
use keystone_crypto.Errors.{Error, Result, ok, err, ok-injective}
use keystone_crypto.Bytes.{Bytes, ℤ, pos, negsuc}
use keystone_crypto.SecretBytes.{SecretBytes, new}
use keystone_crypto.Entropy.{generate_entropy}

-- A whole number of bytes from 16 to 32.
abbrev pub IsEntropySize : ℕ → Type 0
IsEntropySize bits = (bits % 8 ≡ 0) × (128 ≤ bits) × (bits ≤ 256)

size_checks :
    (bits : ℕ)
    → not (bits % 8 == 0) ≡ false
    → (ltb bits 128 || ltb 256 bits) ≡ false
    → IsEntropySize bits
size_checks bits h hs = ground arith

size_passes :
    (bits : ℕ)
    → IsEntropySize bits
    → (not (bits % 8 == 0) ≡ false) × ((ltb bits 128 || ltb 256 bits) ≡ false)
size_passes bits (h, lo, hi) = (ground arith, ground arith)

module _ (token_bytes : ℕ → Bytes) (long : (n : ℕ) → length (token_bytes n) ≡ n) where
  some_bytes : (n : ℕ) → IsEntropySize n → (length (token_bytes (n / 8)) == 0) ≡ false
  some_bytes n (whole, lo, hi) = ground (arith, long (n / 8))

  generated :
      (n : ℕ)
      → IsEntropySize n
      → generate_entropy token_bytes (pos n) ≡ ok (record { buf = token_bytes (n / 8) })
  unfolding generate_entropy new
  generated n size =
      let (whole, range) = size_passes n size in rw (whole, range, some_bytes n size) refl

  -- Every other number is refused by one of the two checks.
  refused :
      (bits : ℤ)
      → ((n : ℕ) × (bits ≡ pos n) × IsEntropySize n)
        ⊎ (generate_entropy token_bytes bits ≡ err Error.value_error)
  unfolding generate_entropy
  refused (negsuc n) = inr (elim (Bool-cases (8 - 1 - n % 8 == 0)) [
    | inl whole ↦ rw whole refl
    | inr part ↦ rw part refl
  ])
  refused (pos n) = elim (Bool-cases (not (n % 8 == 0))) [
    | inl part ↦ inr (rw part refl)
    | inr whole ↦ elim (Bool-cases (ltb n 128 || ltb 256 n)) [
      | inl outside ↦ inr (rw (whole, outside) refl)
      | inr inside ↦ inl (n, refl, size_checks n whole inside)
    ]
  ]

  -- For every integer, negative ones too, entropy is made exactly if it is a multiple of 8 from 128 to
  -- 256, and it is what the random source gives for an eighth of that number; for each other integer the
  -- call ends in `ValueError`. The source gives as many bytes as it is asked for.
  pub generate_entropy_iff :
      (bits : ℤ) (s : SecretBytes)
      → ((generate_entropy token_bytes bits ≡ ok s) ↔ (
          (n : ℕ) × (bits ≡ pos n) × IsEntropySize n × (s ≡ record { buf = token_bytes (n / 8) })))
        × (((n : ℕ) × (bits ≡ pos n) × IsEntropySize n)
            ⊎ (generate_entropy token_bytes bits ≡ err Error.value_error))
  generate_entropy_iff bits s = ((to (refused bits), from), refused bits)
    where
      differ : ◌≡◌ {A = Result SecretBytes} (ok s) (err Error.value_error) → ⊥
      differ h = cc

      to :
          ((n : ℕ) × (bits ≡ pos n) × IsEntropySize n)
            ⊎ (generate_entropy token_bytes bits ≡ err Error.value_error)
          → generate_entropy token_bytes bits ≡ ok s
          → (n : ℕ) × (bits ≡ pos n) × IsEntropySize n × (s ≡ record { buf = token_bytes (n / 8) })
      to (inl (n, same, size)) e = (
        n,
        same,
        size,
        ok-injective (sym e ∙ ap (generate_entropy token_bytes) same ∙ generated n size),
      )
      to (inr none_made) e = absurd (differ (sym e ∙ none_made))

      from :
          ((n : ℕ) × (bits ≡ pos n) × IsEntropySize n × (s ≡ record { buf = token_bytes (n / 8) }))
          → generate_entropy token_bytes bits ≡ ok s
      from (n, same, size, made) =
          ap (generate_entropy token_bytes) same ∙ generated n size ∙ ap ok (sym made)
