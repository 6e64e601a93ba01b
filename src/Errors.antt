-- ===== src/Errors.antt =====
-- src/keystonecrypto/exceptions.py, and the built-in exceptions that the modules raise or let
-- through.
pub mod Raises
use keystone_crypto.Prelude.{◌≡◌, refl, ◌⊎◌, inl, inr, Bool, true, false, if◌then◌else◌}

-- Messages are left out. `foreign` is an exception of a third-party library that the code does not
-- translate.
pub data Error : Type 0 where
  invalid_mnemonic invalid_passphrase invalid_derivation_path keystore_version keystore_decryption
        signature :
      Error
  value_error type_error runtime_error index_error key_error overflow_error struct_error
        validation_error os_error foreign :
      Error

-- `isinstance(e, KeystoneCryptoError)`
pub is_keystone_crypto_error : Error → Bool
is_keystone_crypto_error Error.invalid_mnemonic = true
is_keystone_crypto_error Error.invalid_passphrase = true
is_keystone_crypto_error Error.invalid_derivation_path = true
is_keystone_crypto_error Error.keystore_version = true
is_keystone_crypto_error Error.keystore_decryption = true
is_keystone_crypto_error Error.signature = true
is_keystone_crypto_error _ = false

-- What a call returns or raises.
pub data Result {ℓ} (A : Type ℓ) : Type ℓ where
  ok : A → Result A
  err : Error → Result A

infixl 5 ◌>>=◌ ◌>>◌
-- A raised exception ends what follows.
abbrev pub ◌>>=◌ {ℓ₁ ℓ₂} : {X : Type ℓ₁} {Y : Type ℓ₂} → Result X → (X → Result Y) → Result Y
err raised >>= rest = err raised
ok x >>= rest = rest x

-- `if not c: raise e`
abbrev pub require : Bool → Error → Result (Unit {0})
require c e = if c then ok tt else err e

abbrev pub ◌>>◌ {ℓ} : {Y : Type ℓ} → Result (Unit {0}) → Result Y → Result Y
check >> rest = check >>= λ _. rest

-- What returned at the end returned at each step.
pub >>=-eq-ok {ℓ₁ ℓ₂} :
    {X : Type ℓ₁} {Y : Type ℓ₂} (first : Result X) (rest : X → Result Y) {y : Y}
    → (first >>= rest) ≡ ok y
    → (x : X) × (first ≡ ok x) × (rest x ≡ ok y)
>>=-eq-ok (err raised) rest returned = cc
>>=-eq-ok (ok x) rest returned = (x, refl, returned)

pub ok-injective {ℓ} : {A : Type ℓ} {a b : A} → ok a ≡ ok b → a ≡ b
ok-injective h = cc

pub if-eq-ok {ℓ} :
    {A : Type ℓ} (c : Bool) (r : Result A) (e : Error) {a : A}
    → (if c then r else err e) ≡ ok a
    → (c ≡ true) × (r ≡ ok a)
if-eq-ok true r e h = (refl, h)
if-eq-ok false r e h = cc

-- The same for `if c: raise e`.
pub unless-eq-ok {ℓ} :
    {A : Type ℓ} (c : Bool) (r : Result A) (e : Error) {a : A}
    → (if c then err e else r) ≡ ok a
    → (c ≡ false) × (r ≡ ok a)
unless-eq-ok true r e h = cc
unless-eq-ok false r e h = (refl, h)

pub if_true {ℓ} : {A : Type ℓ} {c : Bool} (x y : A) → c ≡ true → (if c then x else y) ≡ x
if_true x y h = rw h

pub if_false {ℓ} : {A : Type ℓ} {c : Bool} (x y : A) → c ≡ false → (if c then x else y) ≡ y
if_false x y h = rw h

pub require-eq-ok {ℓ} :
    {B : Type ℓ} (c : Bool) (e : Error) (r : Result B) {b : B}
    → (require c e >> r) ≡ ok b
    → (c ≡ true) × (r ≡ ok b)
require-eq-ok true e r h = (refl, h)
require-eq-ok false e r h = cc

pub >>=-assoc {ℓ κ μ} :
    {A : Type ℓ} {B : Type κ} {C : Type μ} (r : Result A) (f : A → Result B) (g : B → Result C)
    → ((r >>= f) >>= g) ≡ (r >>= λ a. f a >>= g)
>>=-assoc (ok a) f g = refl
>>=-assoc (err e) f g = refl

pub >>=-pointwise {ℓ κ} :
    {A : Type ℓ} {B : Type κ} {f g : A → Result B} (r : Result A)
    → ((a : A) → f a ≡ g a)
    → (r >>= f) ≡ (r >>= g)
>>=-pointwise (ok a) same = same a
>>=-pointwise (err e) same = refl

pub Result-cases {ℓ} :
    {A : Type ℓ} (r : Result A) → ((a : A) × (r ≡ ok a)) ⊎ ((e : Error) × (r ≡ err e))
Result-cases (ok a) = inl (a, refl)
Result-cases (err e) = inr (e, refl)
