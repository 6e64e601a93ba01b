-- ===== src/Derivation/Descends.antt =====
-- `derive_from_seed` (src/keystonecrypto/derivation.py): the master key, and the steps down from it.
use keystone_crypto.Prelude.{
  ℕ, ◌^◌, ◌<◌, ◌≡◌, refl, ◌∙◌, List, [], ◌∷◌, Bool, length, take, drop, replicate, arith,
}
use keystone_crypto.Errors.{ok, ok-injective, >>=-eq-ok}
use keystone_crypto.Bytes.{Bytes, ℤ, pos}
use keystone_crypto.Text.{codes}
use keystone_crypto.Hashes.{Hashes, IsHashes}
use keystone_crypto.SecretBytes.{SecretBytes, new}
use keystone_crypto.Signing.{Secp256k1}
use keystone_crypto.Derivation.{
  DerivationPath, ExtendedPrivateKey, master, derive, derive_path, derive_from_seed,
}
use keystone_crypto.Derivation.Children.{IsChild, new-eq-ok, derive-IsChild, depth-derive_path}

-- The key at the root, as BIP-32 makes it of a seed.
pub record IsMaster (h : Hashes) (seed : Bytes) (key : ExtendedPrivateKey) : Type 0 where
  pub secret_half : key.secret_key.buf ≡ take 32 (h.hmac_sha512 (codes "Bitcoin seed") seed)
  pub code_half : key.chain_code.buf ≡ drop 32 (h.hmac_sha512 (codes "Bitcoin seed") seed)
  pub at_root : key.depth ≡ 0
  pub no_parent : key.parent_fingerprint ≡ replicate 4 0
  pub first_number : key.child_number ≡ 0

module _ (h : Hashes) (curve : Secp256k1) where
  -- `Descends key path to`: each index of the path leads to the child that BIP-32 describes.
  pub data Descends : ExtendedPrivateKey → List (ℤ × Bool) → ExtendedPrivateKey → Type 0 where
    arrived : (key : ExtendedPrivateKey) → Descends key [] key
    child :
        {key next to : ExtendedPrivateKey} {n : ℕ} {hardened : Bool} {path : List (ℤ × Bool)}
        → n < 2 ^ 31
        → IsChild h curve key next n hardened
        → Descends next path to
        → Descends key ((pos n, hardened) ∷ path) to

  master-IsMaster :
      (seed : SecretBytes) (key : ExtendedPrivateKey)
      → master h curve seed ≡ ok key
      → IsMaster h seed.buf key
  unfolding master
  master-IsMaster seed key e =
      let i : Bytes = h.hmac_sha512 (codes "Bitcoin seed") seed.buf in
      let (sk, left, e1) = >>=-eq-ok (new (take 32 i)) _ e in
      let (cc', right, last) = >>=-eq-ok (new (drop 32 i)) _ e1 in
      rw (← ok-injective last) (record {
        secret_half = new-eq-ok (take 32 i) sk left;
        code_half = new-eq-ok (drop 32 i) cc' right;
        at_root = refl;
        no_parent = refl;
        first_number = refl;
      })

  derive_path-Descends :
      IsHashes h
      → (key to : ExtendedPrivateKey) (path : List (ℤ × Bool))
      → derive_path h curve key path ≡ ok to
      → Descends key path to
  unfolding derive_path
  derive_path-Descends laws key to [] e = rw (ok-injective e) (arrived to)
  derive_path-Descends laws key to ((i, hardened) ∷ path) e =
      let (next, made, rest) = >>=-eq-ok (derive h curve key i hardened) _ e in
      let (n, same, small, is_child, _) = derive-IsChild h laws curve key next i hardened made in
      rw same (child small is_child (derive_path-Descends laws next to path rest))

  -- A key that `derive_from_seed` returns descends, through the children that BIP-32 describes for the
  -- indices of the path, each below 2 ^ 31, from the master key that BIP-32 makes of the seed, and its
  -- depth is the length of the path. The hash functions return what their standards say.
  pub derive_from_seed-Descends :
      IsHashes h
      → (seed : SecretBytes) (path : DerivationPath) (key : ExtendedPrivateKey)
      → derive_from_seed h curve seed path ≡ ok key
      → (root : ExtendedPrivateKey) × IsMaster h seed.buf root
        × Descends root path.indices key
        × (key.depth ≡ length path.indices)
  unfolding derive_from_seed
  derive_from_seed-Descends laws seed path key e =
      let (root, made, rest) = >>=-eq-ok (master h curve seed) _ e in
      let is_root : IsMaster h seed.buf root = master-IsMaster seed root made in
      (
        root,
        is_root,
        derive_path-Descends laws root key path.indices rest,
        depth-derive_path h laws curve root key path.indices rest ∙ omega (arith, is_root.at_root),
      )
