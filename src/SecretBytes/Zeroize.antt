-- ===== src/SecretBytes/Zeroize.antt =====
-- Overwriting, equality and the print of `SecretBytes` (src/keystonecrypto/secret_bytes.py).
use keystone_crypto.Prelude.{
  ℕ, zero, suc, ◌+◌, ◌≡◌, refl, ap, ◌∙◌, [], ◌∷◌, ◌++◌, true, some, length, set, replicate,
  length-replicate, arith,
}
use mathlib.Core.List.{append-nil}
use mathlib.Core.Logic.{◌↔◌}
use keystone_crypto.Bytes.{Bytes, equal_refl, equal→eq}
use keystone_crypto.SecretBytes.{
  SecretBytes, Value, zeroize_loop, zeroize, exit, finalize, eq, repr, len,
}

set-replicate :
    (i x : ℕ) (rest : Bytes) → set (replicate i 0 ++ x ∷ rest) i 0 ≡ replicate (suc i) 0 ++ rest
set-replicate zero x rest = refl
set-replicate (suc i) x rest = ap (λ (t : Bytes). 0 ∷ t) (set-replicate i x rest)

-- The loop has zeroed `i` bytes and goes on with the rest.
zeroize_loop-replicate :
    (i : ℕ) (rest : Bytes)
    → zeroize_loop (length rest) i (replicate i 0 ++ rest) ≡ replicate (i + length rest) 0
unfolding zeroize_loop
zeroize_loop-replicate i [] =
    append-nil _ ∙ ap (λ (n : ℕ). replicate n 0) {x = i} {y = i + 0} (omega arith)
zeroize_loop-replicate i (x ∷ rest) =
    ap (zeroize_loop (length rest) (suc i)) (set-replicate i x rest)
    ∙ zeroize_loop-replicate (suc i) rest
    ∙ ap (λ (n : ℕ). replicate n 0) {x = suc i + length rest} {y = i + suc (length rest)}
        (omega arith)

-- Zeroizing leaves a buffer of the same length that holds zeros only.
pub zeroize-replicate : (s : SecretBytes) → zeroize s ≡ record { buf = replicate (len s) 0 }
unfolding zeroize
zeroize-replicate s =
    ap (λ (b : Bytes). record { buf = b })
      (zeroize_loop-replicate 0 s.buf
        ∙ ap (λ (n : ℕ). replicate n 0) {x = 0 + len s} {y = len s} (omega arith))

-- The context manager's exit and the finalizer do what an explicit call does, and a second call
-- changes nothing.
pub zeroize_idem :
    (s : SecretBytes)
    → (zeroize (zeroize s) ≡ zeroize s) × (exit s ≡ zeroize s) × (finalize s ≡ zeroize s)
unfolding exit finalize
zeroize_idem s = (
  rw (zeroize-replicate s, zeroize-replicate) (ap wipe (length-replicate {A = ℕ} (len s) 0)),
  refl,
  refl,
)
  where
    wipe : ℕ → SecretBytes
    wipe n = record { buf = replicate n 0 }

-- Two secrets are equal exactly when their bytes are.
pub eq_iff : (s t : SecretBytes) → (eq s (Value.secret t) ≡ some true) ↔ (s.buf ≡ t.buf)
unfolding eq
eq_iff s t = (to, from)
  where
    to : eq s (Value.secret t) ≡ some true → s.buf ≡ t.buf
    to h = ground (arith, equal→eq s.buf t.buf)

    from : s.buf ≡ t.buf → eq s (Value.secret t) ≡ some true
    from h = rw h (ground (arith, equal_refl t.buf))

-- The print of a secret shows its length and nothing of its bytes.
pub repr_redacted : (s t : SecretBytes) → len s ≡ len t → repr s ≡ repr t
unfolding repr
repr_redacted s t h = rw h
