-- ===== src/Tests/Keystores.antt =====
-- Runs of `keystore.py` and `envelope.py`.
use keystone_crypto.Prelude.{◌≡◌, ◌⊎◌, refl, ◌++◌, true, length, replicate, none, some, arith}
use keystone_crypto.Errors.{Error, ok, err}
use keystone_crypto.Kdf.Laws.{IsParams}
use keystone_crypto.Bytes.{Bytes}
use keystone_crypto.Text.{codes}
use keystone_crypto.SecretBytes.{SecretBytes, zeroize}
use keystone_crypto.Envelope.{pack, unpack}
use keystone_crypto.Envelope.Blob.{open_sealed}
use keystone_crypto.Envelope.RoundTrip.{unpack-pack, unpack-pack_long_salt}
use keystone_crypto.Keystore.{
  secret_text, Keystore, Argument, create, save, open_keystore, unlock, new_wallet,
}
use keystone_crypto.Keystore.RoundTrip.{unlock-create}
use keystone_crypto.Keystore.Creates.{HoldingEnds, create_outcomes}
use keystone_crypto.Tests.Libraries.{
  toy_argon2, toy_argon2-IsArgon2, toy_argon2-IsSelfContained, toy_aes, toy_aes-IsAesGcm,
  toy_hashes-IsHashes, toy_unicode-IsUnicode, toy_libraries,
}
use keystone_crypto.Tests.Phrase.{phrase_16, from_entropy-phrase_16, from_phrase-phrase_16}
use keystone_crypto.Tests.Setting.{
  entropy_16, entropy_16-AreBytes, params_with, params-FitsHeader, sevens, nines, now, now-IsI64,
  password, pw, password-encoded, password-ne-nil, key_for,
}

abbrev seed : SecretBytes
seed = record { buf = entropy_16 }

unlock-create_example :
    (ks : Keystore) × (create toy_libraries sevens nines now phrase_16
        (Argument.text password)
        (params_with 16)
        true
      ≡ (ok ks, some (zeroize pw)))
    × (open_keystore (codes "w.kst") (save ks (codes "w.kst") (λ p. none))
        ≡ ok (record { blob = ks.blob }))
    × (unlock toy_libraries (record { blob = ks.blob }) (Argument.text password)
        ≡ (ok (new_wallet (some phrase_16) seed), some (zeroize pw)))
unlock-create_example =
    unlock-create toy_libraries toy_hashes-IsHashes toy_unicode-IsUnicode toy_aes-IsAesGcm
      entropy_16 4 refl (omega arith) (omega arith) entropy_16-AreBytes phrase_16
      from_entropy-phrase_16 sevens nines now (params_with 16) true password password (key_for 16)
      refl refl refl refl (params-FitsHeader 16) now-IsI64 password-ne-nil password-encoded refl
      refl (codes "w.kst") (λ p. none)

unpack-pack_example :
    (b : Bytes) × (pack toy_argon2 toy_aes sevens nines now seed pw (params_with 16) 1 true none
      ≡ ok b)
    × (unpack toy_argon2 toy_aes b pw
        ≡ ok (record { seed = seed; has_passphrase = true; created_at = now }))
    × (length b ≡ 114)
unpack-pack_example =
    unpack-pack toy_argon2 toy_aes toy_aes-IsAesGcm sevens nines now seed pw (params_with 16) true
      none (key_for 16) refl refl (omega arith) refl (params-FitsHeader 16) now-IsI64 refl refl refl
      (λ e. cc)

-- With a salt of 32 bytes, unpacking what was packed ends in an error.
unpack-pack_long_salt_example :
    (b ct : Bytes) × (pack toy_argon2 toy_aes sevens nines now seed pw (params_with 32) 1 true none
      ≡ ok b)
    × (unpack toy_argon2 toy_aes b pw
        ≡ open_sealed toy_argon2 toy_aes
            (replicate 16 7)
            (params_with 16)
            1
            (replicate 12 7)
            (replicate 4 7 ++ (nines 12 ++ ct))
            pw)
unpack-pack_long_salt_example =
    unpack-pack_long_salt toy_argon2 toy_aes toy_aes-IsAesGcm sevens nines now seed pw
      (params_with 32) true none (key_for 32) refl refl (omega arith) refl (params-FitsHeader 32)
      now-IsI64 refl refl (omega arith)

params_with-IsParams : IsParams (params_with 32)
params_with-IsParams = record {
  time = (omega arith, omega arith);
  memory = (omega arith, omega arith);
  aligned = refl;
  lanes = (omega arith, omega arith);
  hash = (omega arith, omega arith);
  salt = (omega arith, omega arith);
  version = refl;
}

create_outcomes_example :
    ((secret_text password ≡ err Error.value_error)
      × (create toy_libraries sevens nines now phrase_16
            (Argument.text password)
            (params_with 32)
            true
          ≡ (err Error.value_error, none)))
    ⊎ ((s : SecretBytes) × (secret_text password ≡ ok s)
        × HoldingEnds toy_argon2 (params_with 32) (sevens 32) true s (
            create toy_libraries sevens nines now phrase_16
              (Argument.text password)
              (params_with 32)
              true))
create_outcomes_example =
    create_outcomes toy_libraries toy_argon2-IsArgon2 toy_argon2-IsSelfContained toy_aes-IsAesGcm
      sevens nines now (params_with 32) true password params_with-IsParams now-IsI64 refl refl
      phrase_16.phrase phrase_16 from_phrase-phrase_16
