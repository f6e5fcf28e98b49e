-- ===== src/Base/Result.antt =====
-- Go's `(value, error)` as a result type, with `do` for the chains of `if err != nil { return err }`.
use mathlib.Core.Path.{◌≡◌, refl}
use mathlib.Core.Bool.{Bool, true, false}
use mathlib.Core.Option.{Option, none, some}

pub data Result {ℓ} (E A : Type ℓ) : Type ℓ where
  ok : A → Result E A
  err : E → Result E A

infixl 5 ◌>>=◌ ◌>>◌
abbrev pub ◌>>=◌ {ℓ} : {E A B : Type ℓ} → Result E A → (A → Result E B) → Result E B
ok a >>= f = f a
err e >>= f = err e

abbrev pub ◌>>◌ {ℓ} : {E B : Type ℓ} → Result E (Unit {ℓ}) → Result E B → Result E B
m >> k = m >>= λ _. k

-- Go on if the test passes, and return the error otherwise.
abbrev pub require : {E : Type 0} → Bool → E → Result E (Unit {0})
require true e = ok tt
require false e = err e

abbrev pub or_fail {ℓ} : {E A : Type ℓ} → Option A → E → Result E A
or_fail none e = err e
or_fail (some a) e = ok a

-- A chain that came through: its first step did, and so did the rest.
pub >>=-eq-ok {ℓ} :
    {E A B : Type ℓ} (step : Result E A) (rest : A → Result E B) {out : B}
    → (step >>= rest) ≡ ok out
    → (mid : A) × (step ≡ ok mid) × (rest mid ≡ ok out)
>>=-eq-ok (err e) rest h = cc
>>=-eq-ok (ok mid) rest h = (mid, refl, h)

-- `fmt.Errorf("...: %w", err)`
abbrev pub wrap_err {ℓ} : {E F A : Type ℓ} → (E → F) → Result E A → Result F A
wrap_err f (ok a) = ok a
wrap_err f (err e) = err (f e)

pub wrap_err-eq-ok {ℓ} :
    {E F A : Type ℓ} (f : E → F) (m : Result E A) {a : A} → wrap_err f m ≡ ok a → m ≡ ok a
wrap_err-eq-ok f (ok b) h = cc
wrap_err-eq-ok f (err e) h = cc

pub ok_injective {ℓ} : {E A : Type ℓ} {a b : A} → Path (Result E A) (ok a) (ok b) → a ≡ b
ok_injective h = cc
