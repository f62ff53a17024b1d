-- ===== src/Prelude/Errors.antt =====
-- Rust's `Result<A, E>`, with `?` as the bind of a `do` block.
use mathlib.Core.Path.{◌≡◌, refl}
use mathlib.Core.Bool.{Bool, true, false}
use ark_forge.Prelude.Tests.{if◌then◌else◌}
use mathlib.Core.Option.{Option, none, some}

pub data Result {ℓ κ} (E : Type ℓ) (A : Type κ) : Type (ℓ ⊔ κ) where
  err : E → Result E A
  ok : A → Result E A

abbrev pub map_err {ℓ κ μ} :
    {E : Type ℓ} {F : Type κ} {A : Type μ} → (E → F) → Result E A → Result F A
map_err f (err e) = err (f e)
map_err f (ok a) = ok a

abbrev pub ok_or {ℓ κ} : {E : Type ℓ} {A : Type κ} → Option A → E → Result E A
ok_or none e = err e
ok_or (some a) e = ok a

-- `?`, and the rest of the function.
infixl 5 ◌>>=◌
abbrev pub ◌>>=◌ {ℓ κ μ} :
    {E : Type ℓ} {A : Type κ} {B : Type μ} → Result E A → (A → Result E B) → Result E B
err e >>= rest = err e
ok a >>= rest = rest a

-- `if !test { return Err(e) }`.
abbrev pub ensure {ℓ} : {E : Type ℓ} → Bool → E → Result E (Unit {0})
ensure test e = if test then ok tt else err e

pub >>=-eq-ok {ℓ κ μ} :
    {E : Type ℓ} {A : Type κ} {B : Type μ} (m : Result E A) (rest : A → Result E B) {b : B}
    → (m >>= rest) ≡ ok b
    → (a : A) × (m ≡ ok a) × (rest a ≡ ok b)
>>=-eq-ok (err e) rest returned = cc
>>=-eq-ok (ok a) rest returned = (a, refl, returned)

pub ensure-eq-ok {ℓ μ} :
    {E : Type ℓ} {B : Type μ} (test : Bool) (e : E) (rest : Unit {0} → Result E B) {b : B}
    → (ensure test e >>= rest) ≡ ok b
    → (test ≡ true) × (rest tt ≡ ok b)
ensure-eq-ok true e rest returned = (refl, returned)
ensure-eq-ok false e rest returned = cc

pub map_err-eq-ok {ℓ κ μ} :
    {E : Type ℓ} {F : Type κ} {A : Type μ} (f : E → F) (m : Result E A) {a : A}
    → map_err f m ≡ ok a
    → m ≡ ok a
map_err-eq-ok f (err e) returned = cc
map_err-eq-ok f (ok a) returned = cc

-- A sum that overflows: the release build checks it and aborts.
pub data Abort : Type 0 where
  overflowed : Abort

-- How a call stops short: the process aborts, or the call refuses with an error.
pub data Stop {ℓ} (E : Type ℓ) : Type ℓ where
  aborted : Abort → Stop E
  refused : E → Stop E
