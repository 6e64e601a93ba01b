-- ===== src/Mnemonic/Generated.antt =====
-- `Mnemonic.generate` (src/keystonecrypto/mnemonic.py).
use keystone_crypto.Prelude.{ℕ, ◌*◌, ◌/◌, ◌≤◌, ◌≡◌, refl, ◌∙◌, true, length, arith}
use keystone_crypto.Errors.{ok}
use keystone_crypto.Bytes.{Bytes, AreBytes, pos}
use keystone_crypto.Unicode.{Unicode, IsUnicode, split}
use keystone_crypto.Hashes.{Hashes, IsHashes}
use keystone_crypto.Entropy.{generate_entropy}
use keystone_crypto.Entropy.Laws.{generate_entropy_iff}
use keystone_crypto.Mnemonic.{Mnemonic, generate, from_phrase, entropy, is_strength}
use keystone_crypto.Mnemonic.RoundTrip.{from_phrase-from_entropy}

strengths : (k : ℕ) → 4 ≤ k → k ≤ 8 → is_strength (pos (32 * k)) ≡ true
strengths k lo hi = ground arith

-- For each of the five strengths, 32 times `k` bits, `generate` returns a phrase of `3 * k` words, which
-- `from_phrase` accepts and whose entropy is what the random source gave, if that source gives as many
-- bytes as it is asked for, and the hash and the Unicode tables follow their standards.
pub from_phrase-generate :
    (h : Hashes)
    → IsHashes h
    → (u : Unicode) → IsUnicode u
    → (token_bytes : ℕ → Bytes) → ((n : ℕ) → length (token_bytes n) ≡ n)
    → ((n : ℕ) → AreBytes (token_bytes n))
    → (k : ℕ) → 4 ≤ k
    → k ≤ 8
    → (m : Mnemonic) × (generate h token_bytes (pos (32 * k)) ≡ ok m)
      × (length (split u m.phrase) ≡ 3 * k)
      × (from_phrase h u m.phrase ≡ ok m)
      × (entropy u m ≡ ok (record { buf = token_bytes (32 * k / 8) }))
unfolding generate
from_phrase-generate h h_laws u u_laws token_bytes long are k lo hi =
    let ent : Bytes = token_bytes (32 * k / 8) in
    let made : generate_entropy token_bytes (pos (32 * k)) ≡ ok (record { buf = ent }) =
      (generate_entropy_iff token_bytes long (pos (32 * k)) (record { buf = ent })).0.1
        (32 * k, refl, (omega arith, omega arith, omega arith), refl) in
    let (m, written, count, accepted, back) =
      from_phrase-from_entropy h h_laws u u_laws ent k (long (32 * k / 8) ∙ omega arith) lo hi
        (are (32 * k / 8)) in
    (m, rw (strengths k lo hi, made, written), count, accepted, back)
