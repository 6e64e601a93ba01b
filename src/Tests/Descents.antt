-- ===== src/Tests/Descents.antt =====
-- The key at 44' below a seed.
use keystone_crypto.Prelude.{◌≡◌, refl, [], ◌∷◌, true, length}
use keystone_crypto.Digits.{digits, value}
use keystone_crypto.Errors.{ok}
use keystone_crypto.Bytes.{pos, pack_u32, to_bytes}
use keystone_crypto.SecretBytes.{new}
use keystone_crypto.Derivation.{
  DerivationPath, ExtendedPrivateKey, derive_from_seed, master, derive_path, derive, derive_index,
  effective_index, child_data, fingerprint,
}
use keystone_crypto.Derivation.Descends.{IsMaster, Descends, derive_from_seed-Descends}
use keystone_crypto.Tests.Libraries.{toy_hashes, toy_hashes-IsHashes, toy_curve}
use keystone_crypto.Tests.Setting.{entropy_16, signing_key}

abbrev path : DerivationPath
path = record { indices = (pos 44, true) ∷ [] }

abbrev key : ExtendedPrivateKey
key = record {
  secret_key = record { buf = signing_key };
  chain_code = record {
    buf =
        0 ∷ 0 ∷ 0 ∷ 0 ∷ 0 ∷ 0 ∷ 0 ∷ 0 ∷ 0 ∷ 0 ∷ 46 ∷ 47 ∷ 120 ∷ 153 ∷ 174 ∷ 27 ∷ 5 ∷ 44 ∷ 145 ∷ 76
        ∷ 157 ∷ 38 ∷ 118 ∷ 252 ∷ 150 ∷ 130 ∷ 1 ∷ 189 ∷ 112 ∷ 0 ∷ 250 ∷ 217 ∷ [];
  };
  depth = 1;
  parent_fingerprint = 0 ∷ 2 ∷ 119 ∷ 51 ∷ [];
  child_number = 2147483692;
}

found : derive_from_seed toy_hashes toy_curve (record { buf = entropy_16 }) path ≡ ok key
unfolding derive_from_seed master derive_path derive derive_index effective_index child_data
    fingerprint pack_u32 to_bytes digits value new
found = refl

derive_from_seed-Descends_example :
    (root : ExtendedPrivateKey) × IsMaster toy_hashes entropy_16 root
    × Descends toy_hashes toy_curve root path.indices key
    × (key.depth ≡ length path.indices)
derive_from_seed-Descends_example =
    derive_from_seed-Descends toy_hashes toy_curve toy_hashes-IsHashes (record { buf = entropy_16 })
      path key found
