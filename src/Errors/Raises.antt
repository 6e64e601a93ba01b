-- ===== src/Errors/Raises.antt =====
-- Which exceptions a call may raise: the built-in ones and those of src/keystonecrypto/exceptions.py.
use keystone_crypto.Prelude.{◌≡◌, refl, Bool, true, false, if◌then◌else◌}
use keystone_crypto.Errors.{Error, Result, ok, err, ◌>>=◌, ◌>>◌, require}

-- What is raised satisfies the predicate.
abbrev pub Raises {ℓ κ} : {A : Type ℓ} → (Error → Type κ) → Result A → Type κ
Raises P (ok a) = Unit
Raises P (err e) = P e

err-injective {ℓ} : {A : Type ℓ} {d e : Error} → ◌≡◌ {A = Result A} (err d) (err e) → d ≡ e
err-injective h = cc

pub Raises-err {ℓ κ} :
    {A : Type ℓ} (P : Error → Type κ) (r : Result A) {e : Error} → Raises P r → r ≡ err e → P e
Raises-err P (ok a) h same = cc
Raises-err P (err d) h same = rw (← err-injective same) h

pub Raises->>= {ℓ₁ ℓ₂ κ} :
    {A : Type ℓ₁} {B : Type ℓ₂} (P : Error → Type κ) (r : Result A) (f : A → Result B)
    → Raises P r
    → ((a : A) → r ≡ ok a → Raises P (f a))
    → Raises P (r >>= f)
Raises->>= P (ok a) f h k = k a refl
Raises->>= P (err e) f h k = h

-- `if c: raise e`
pub Raises-if {ℓ κ} :
    {A : Type ℓ} (P : Error → Type κ) (c : Bool) (e : Error) (r : Result A)
    → P e
    → (c ≡ false → Raises P r)
    → Raises P (if c then err e else r)
Raises-if P true e r h k = h
Raises-if P false e r h k = k refl

-- `if not c: raise e`
pub Raises-require {ℓ κ} :
    {A : Type ℓ} (P : Error → Type κ) (c : Bool) (e : Error) (r : Result A)
    → P e
    → (c ≡ true → Raises P r)
    → Raises P (require c e >> r)
Raises-require P true e r h k = k refl
Raises-require P false e r h k = h

pub Raises-check {ℓ κ} :
    {A : Type ℓ} (P : Error → Type κ) (c : Bool) (e : Error) (r : Result A)
    → (c ≡ false → P e)
    → (c ≡ true → Raises P r)
    → Raises P (require c e >> r)
Raises-check P true e r h k = k refl
Raises-check P false e r h k = h refl

pub Raises-weaken {ℓ κ μ} :
    {A : Type ℓ} (P : Error → Type κ) (Q : Error → Type μ) (r : Result A)
    → ((e : Error) → P e → Q e)
    → Raises P r
    → Raises Q r
Raises-weaken P Q (ok a) weaker h = tt
Raises-weaken P Q (err e) weaker h = weaker e h
