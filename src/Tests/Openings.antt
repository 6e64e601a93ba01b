-- ===== src/Tests/Openings.antt =====
-- A keystore whose header asks for a hash of 16 bytes.
use keystone_crypto.Prelude.{
  some, none, ◌⊎◌, ◌≡◌, refl, [], ◌∷◌, ◌++◌, replicate, take, slice, arith,
}
use keystone_crypto.Digits.{value}
use keystone_crypto.Errors.{Error, ok, err}
use keystone_crypto.Bytes.{Bytes, AreBytes, index}
use keystone_crypto.Envelope.{UnpackedKeystore, magic, unpack}
use keystone_crypto.Envelope.Failures.{header_params, unpack_hash_len}
use keystone_crypto.Envelope.Raised.{HashIsNoKey, SeedIsEmpty, IsForeign, unpack_raises}
use keystone_crypto.Envelope.RoundTrip.{hash_of}
use keystone_crypto.Keystore.{KeystoreContext, Argument, Wallet, secret_text, unlock}
use keystone_crypto.Keystore.Outcomes.{IsUnlockError, IsWalletOf, unlock_outcomes}
use keystone_crypto.SecretBytes.{SecretBytes, zeroize}
use keystone_crypto.Tests.Libraries.{
  toy_argon2, toy_argon2-IsArgon2, toy_argon2-IsSelfContained, toy_aes, toy_libraries,
}
use keystone_crypto.Tests.Setting.{pw, password, key_for}

abbrev head : Bytes
head = magic ++ 1 ∷ 1 ∷ 0 ∷ 0 ∷ 0 ∷ 3 ∷ 0 ∷ 4 ∷ 0 ∷ 0 ∷ 0 ∷ 0 ∷ 0 ∷ 4 ∷ 0 ∷ 0 ∷ 0 ∷ 16 ∷ []

abbrev short_key_blob : Bytes
short_key_blob = head ++ (0 ∷ 0 ∷ 0 ∷ 19 ∷ []) ++ replicate 12 0 ++ replicate 44 7

short_key_blob-AreBytes : AreBytes short_key_blob
short_key_blob-AreBytes = ground arith

short_key_blob_four : index short_key_blob 4 ≡ ok 1
unfolding index
short_key_blob_four = refl

short_key_blob_five : index short_key_blob 5 ≡ ok 1
unfolding index
short_key_blob_five = refl

hashed :
    hash_of toy_argon2 pw (header_params short_key_blob) (slice 38 54 short_key_blob)
    ≡ ok (take 16 (key_for 16))
unfolding value
hashed = refl

sixteen : (header_params short_key_blob).hash_len ≡ 16
unfolding value
sixteen = refl

unpack_hash_len_example : unpack toy_argon2 toy_aes short_key_blob pw ≡ err Error.value_error
unpack_hash_len_example =
    unpack_hash_len toy_argon2 toy_aes short_key_blob pw (take 16 (key_for 16)) 1
      toy_argon2-IsArgon2 (omega arith) refl short_key_blob_four short_key_blob_five (omega arith)
      hashed (λ e. absurd (omega (arith, e, sixteen))) (λ e. absurd (omega (arith, e, sixteen)))

unpack_raises_example :
    (Error.value_error ≡ Error.keystore_decryption)
    ⊎ ((Error.value_error ≡ Error.keystore_version)
        × IsForeign toy_argon2 toy_aes short_key_blob pw)
    ⊎ (Error.value_error ≡ Error.foreign)
    ⊎ ((Error.value_error ≡ Error.value_error)
        × (HashIsNoKey toy_argon2 toy_aes short_key_blob pw
            ⊎ SeedIsEmpty toy_argon2 toy_aes short_key_blob pw))
unpack_raises_example =
    unpack_raises toy_argon2 toy_aes short_key_blob pw toy_argon2-IsSelfContained
      short_key_blob-AreBytes Error.value_error
      (unpack_hash_len toy_argon2 toy_aes short_key_blob pw (take 16 (key_for 16)) 1
        toy_argon2-IsArgon2 (omega arith) refl short_key_blob_four short_key_blob_five (omega arith)
        hashed (λ e. absurd (omega (arith, e, sixteen))) (λ e. absurd (omega (arith, e, sixteen))))

abbrev context : KeystoreContext
context = record { blob = short_key_blob }

unlock_outcomes_example :
    ((secret_text password ≡ err Error.value_error)
      × (unlock toy_libraries context (Argument.text password) ≡ (err Error.value_error, none)))
    ⊎ ((pw : SecretBytes) × (u : UnpackedKeystore) × (w : Wallet) × (secret_text password ≡ ok pw)
        × (unpack toy_argon2 toy_aes short_key_blob pw ≡ ok u)
        × (unlock toy_libraries context (Argument.text password) ≡ (ok w, some (zeroize pw)))
        × IsWalletOf toy_libraries u w)
    ⊎ ((pw : SecretBytes) × (e : Error) × (secret_text password ≡ ok pw)
        × (unpack toy_argon2 toy_aes short_key_blob pw ≡ err e)
        × (unlock toy_libraries context (Argument.text password) ≡ (err e, some pw))
        × IsUnlockError toy_libraries short_key_blob pw e)
unlock_outcomes_example =
    unlock_outcomes toy_libraries context password toy_argon2-IsSelfContained
      short_key_blob-AreBytes
