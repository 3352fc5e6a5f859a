-- ===== src/Runtime/Effects/Success.antt =====
-- What the success of a chain of steps says of its first step.
use mobile_final_project.Base.{◌≡◌, refl, Bool, true, false, Option, none, some}
use mobile_final_project.Runtime.Effects.{ErrorCode, Result, ok, err, guard, or_fail, ◌>>=◌}

pub err_ne_ok {ℓ} : {A : Type ℓ} {e : ErrorCode} {a : A} → err e ≡ ok a → ⊥
err_ne_ok h = cc

pub ok_eq {ℓ} : {A : Type ℓ} {a b : A} → ok a ≡ ok b → a ≡ b
ok_eq h = cc

pub or_fail-ok {ℓ κ} :
    {A : Type ℓ} {B : Type κ} (o : Option A) (e : ErrorCode) (f : A → Result B) {b : B}
    → or_fail o e >>= f ≡ ok b
    → (a : A) × (o ≡ some a) × (f a ≡ ok b)
or_fail-ok none e f h = absurd (err_ne_ok h)
or_fail-ok (some a) e f h = (a, refl, h)

pub guard-ok {ℓ} :
    {B : Type ℓ} (t : Bool) (e : ErrorCode) (f : Unit {0} → Result B) {b : B}
    → guard t e >>= f ≡ ok b
    → (t ≡ true) × (f tt ≡ ok b)
guard-ok true e f h = (refl, h)
guard-ok false e f h = absurd (err_ne_ok h)

pub bind-ok {ℓ κ} :
    {A : Type ℓ} {B : Type κ} (r : Result A) (f : A → Result B) {b : B}
    → r >>= f ≡ ok b
    → (a : A) × (r ≡ ok a) × (f a ≡ ok b)
bind-ok (ok a) f h = (a, refl, h)
bind-ok (err e) f h = absurd (err_ne_ok h)
