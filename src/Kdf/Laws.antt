-- ===== src/Kdf/Laws.antt =====
-- `Argon2Params` and `derive_key` (src/keystonecrypto/kdf.py).
use keystone_crypto.Prelude.{
  ℕ, ◌%◌, ◌^◌, ◌≤◌, ◌≡◌, sym, ap, ◌∙◌, length, not, ◌==◌, true, false, some, arith,
}
use mathlib.Core.Logic.{◌↔◌}
use keystone_crypto.Errors.{ok, ok-injective, if-eq-ok, unless-eq-ok, >>=-eq-ok}
use keystone_crypto.Bytes.{Bytes}
use keystone_crypto.SecretBytes.{SecretBytes, new}
use keystone_crypto.Kdf.{
  Argon2Params, fields_ok, memory_aligned, new_params, Argon2, IsArgon2, hash_with, derive_key,
}

-- The bounds on a set of parameters.
pub record IsParams (p : Argon2Params) : Type 0 where
  pub time : (1 ≤ p.time_cost) × (p.time_cost ≤ 10)
  pub memory : (19456 ≤ p.memory_cost) × (p.memory_cost ≤ 2 ^ 21)
  pub aligned : p.memory_cost % 8 ≡ 0
  pub lanes : (1 ≤ p.parallelism) × (p.parallelism ≤ 16)
  pub hash : (16 ≤ p.hash_len) × (p.hash_len ≤ 64)
  pub salt : (8 ≤ p.salt_len) × (p.salt_len ≤ 64)
  pub version : p.version ≡ 0x13

fields_sound :
    (p : Argon2Params) → fields_ok p ≡ true → not (p.memory_cost % 8 == 0) ≡ false → IsParams p
unfolding fields_ok
fields_sound p h a = record {
  time = ground arith;
  memory = ground arith;
  aligned = ground arith;
  lanes = ground arith;
  hash = ground arith;
  salt = ground arith;
  version = ground arith;
}

fields_complete :
    (p : Argon2Params) → IsParams p → (fields_ok p ≡ true) × (not (p.memory_cost % 8 == 0) ≡ false)
unfolding fields_ok
fields_complete p h =
    let (t1, t2) = h.time in
    let (m1, m2) = h.memory in
    let a = h.aligned in
    let (l1, l2) = h.lanes in
    let (h1, h2) = h.hash in
    let (s1, s2) = h.salt in let v = h.version in (ground arith, ground arith)

-- Public construction returns exactly the parameters that are in bounds, as they are. A time cost of 1
-- is among them.
pub new_params_iff : (p q : Argon2Params) → (new_params p ≡ ok q) ↔ (IsParams p × (p ≡ q))
unfolding new_params memory_aligned
new_params_iff p q = (to, from)
  where
    to : new_params p ≡ ok q → IsParams p × (p ≡ q)
    to e =
        let (fields, e1) = if-eq-ok (fields_ok p) _ _ e in
        let (v, checked, last) = >>=-eq-ok (memory_aligned p.memory_cost) _ e1 in
        let (aligned, same) = unless-eq-ok (not (p.memory_cost % 8 == 0)) _ _ checked in
        let unchanged : p.memory_cost ≡ v = ok-injective same in
        (
          fields_sound p fields aligned,
          ap (λ (n : ℕ). record p { memory_cost = n }) unchanged ∙ ok-injective last,
        )

    from : IsParams p × (p ≡ q) → new_params p ≡ ok q
    from (h, same) =
        let (fields, aligned) = fields_complete p h in rw (fields, aligned) (ap ok same)

-- With an Argon2 whose hashes have the length that is asked for, a key derived with a given salt has
-- the length that the parameters ask for. The salt that comes with it is the given one, and has the
-- length that they ask for.
pub length-derive_key :
    (argon2 : Argon2)
    → IsArgon2 argon2
    → (token_bytes : ℕ → Bytes) (password : SecretBytes) (p : Argon2Params) (salt : Bytes)
      (key : SecretBytes) (out : Bytes)
    → derive_key argon2 token_bytes password p (some salt) ≡ ok (key, out)
    → (length key.buf ≡ p.hash_len) × (out ≡ salt) × (length salt ≡ p.salt_len)
unfolding derive_key hash_with new
length-derive_key argon2 laws token_bytes password p salt key out e =
    let (fits, e1) =
      unless-eq-ok (not (length salt == p.salt_len)) (hash_with argon2 password p salt) _ e in
    let (raw, hashed, e2) =
      >>=-eq-ok
        (argon2.hash_secret_raw password.buf salt p.time_cost p.memory_cost p.parallelism p.hash_len
          p.version)
        _ e1 in
    let (made, wrapped, last) = >>=-eq-ok (new raw) _ e2 in
    let (_, w) = unless-eq-ok (length raw == 0) _ _ wrapped in
    let same : raw ≡ made.buf = ap (λ (s : SecretBytes). s.buf) (ok-injective w) in
    let pair : (made, salt) ≡ (key, out) = ok-injective last in
    (
      ap (λ (x : SecretBytes × Bytes). length x.0.buf) (sym pair)
          ∙ ap length (sym same)
          ∙ laws.length-hash password.buf salt p.time_cost p.memory_cost p.parallelism p.hash_len
              p.version raw hashed,
      ap (λ (x : SecretBytes × Bytes). x.1) (sym pair),
      exact (length salt) p.salt_len fits,
    )
  where
    exact : (a b : ℕ) → not (a == b) ≡ false → a ≡ b
    exact a b h = ground arith
