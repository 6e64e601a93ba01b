-- ===== src/Envelope/Plaintext.antt =====
-- The plaintext section of src/keystonecrypto/envelope.py.
use keystone_crypto.Prelude.{
  ℕ, ◌+◌, ◌≤◌, ◌≡◌, ◌≢◌, refl, ◌∙◌, [], ◌∷◌, ◌++◌, Bool, true, false, length, slice, slice-append,
  get_elem?-append, replicate, length-append, le→ltb, arith,
}
use keystone_crypto.Errors.{ok}
use keystone_crypto.Bytes.{
  Bytes, ℤ, byte, pack_i64, pack_i64_shape, unpack_i64-pack_i64, index, index-some,
}
use keystone_crypto.SecretBytes.{new}
use keystone_crypto.Envelope.{flags_of, flag_set, pack_plaintext, unpack_plaintext}

abbrev pub plain_of : Bytes → Bytes → Bool → Bytes
plain_of seed stamp hp = length seed ∷ (seed ++ (stamp ++ flags_of hp ∷ replicate 6 0))

pub pack_plaintext_fits :
    (seed stamp : Bytes) (ts : ℤ) (hp : Bool)
    → length seed ≤ 255
    → pack_i64 ts ≡ ok stamp
    → pack_plaintext seed ts hp ≡ ok (plain_of seed stamp hp)
unfolding pack_plaintext byte
pack_plaintext_fits seed stamp ts true h e = rw e (ground arith)
pack_plaintext_fits seed stamp ts false h e = rw e (ground arith)

pub length-plain_of :
    (seed stamp : Bytes) (hp : Bool)
    → length stamp ≡ 8
    → length (plain_of seed stamp hp) ≡ length seed + 16
length-plain_of seed stamp hp h = omega (
  arith,
  length-append seed (stamp ++ flags_of hp ∷ replicate 6 0),
  length-append stamp (flags_of hp ∷ replicate {A = ℕ} 6 0),
)

module _ (seed stamp : Bytes) (hp : Bool) (h8 : length stamp ≡ 8) where
  seed_slice : slice 1 (1 + length seed) (plain_of seed stamp hp) ≡ seed
  seed_slice = slice-append 1 (1 + length seed) (length seed ∷ []) seed _ refl refl

  stamp-slice : slice (1 + length seed) (1 + length seed + 8) (plain_of seed stamp hp) ≡ stamp
  stamp-slice =
      slice-append (1 + length seed) (1 + length seed + 8) (length seed ∷ seed) stamp _
        (omega arith) (omega arith)

  flags_at : index (plain_of seed stamp hp) (1 + length seed + 8) ≡ ok (flags_of hp)
  flags_at = index-some _ _ _ (
      get_elem?-append (length seed ∷ seed) (stamp ++ flags_of hp ∷ replicate 6 0) 8
        (1 + length seed + 8) (omega arith)
      ∙ get_elem?-append stamp (flags_of hp ∷ replicate 6 0) 0 8 (omega arith))

flag_set-flags_of : (hp : Bool) → flag_set (flags_of hp) ≡ hp
flag_set-flags_of true = refl
flag_set-flags_of false = refl

pub new_of_ne-nil : (b : Bytes) → b ≢ [] → new b ≡ ok (record { buf = b })
unfolding new
new_of_ne-nil [] h = absurd (h refl)
new_of_ne-nil (x ∷ b) h = ground arith

-- Reading a packed plaintext gives the seed, the time stamp and the flag back.
pub unpack_plaintext-plain_of :
    (seed stamp : Bytes) (ts : ℤ) (hp : Bool)
    → seed ≢ []
    → pack_i64 ts ≡ ok stamp
    → unpack_plaintext (plain_of seed stamp hp)
      ≡ ok (record { seed = record { buf = seed }; has_passphrase = hp; created_at = ts })
unfolding unpack_plaintext
unpack_plaintext-plain_of seed stamp ts hp ne e =
    let h8 : length stamp ≡ 8 = (pack_i64_shape ts stamp e).0 in
    let size : length (plain_of seed stamp hp) ≡ length seed + 16 =
      length-plain_of seed stamp hp h8 in
    rw
      (
        le→ltb (length (plain_of seed stamp hp)) (1 + 8 + 1 + 6) (omega arith),
        index-some (plain_of seed stamp hp) 0 (length seed) refl,
      )
      (rw
        (
          le→ltb (length (plain_of seed stamp hp)) (1 + length seed + 8 + 1 + 6) (omega arith),
          seed_slice seed stamp hp h8,
          new_of_ne-nil seed ne,
          flags_at seed stamp hp h8,
        )
        (rw (stamp-slice seed stamp hp h8, unpack_i64-pack_i64 ts stamp e, flag_set-flags_of hp)))
