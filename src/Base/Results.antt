-- ===== src/Base/Results.antt =====
-- `throw domainError.…` as a value that ends a `do` block.
use mathlib.Core.Bool.{Bool, true, false}
use mathlib.Core.Option.{Option, none, some}
use mathlib.Core.Path.{◌≡◌, refl}
use mathlib.Core.Logic.{◌⊎◌, inl, inr}

pub data DomainErrorKind : Type 0 where
  unauthorized forbidden not_found bad_request conflict unprocessable : DomainErrorKind

-- What a service answers: a domain error, another error, or its value.
pub data Result {ℓ} (A : Type ℓ) : Type ℓ where
  thrown : DomainErrorKind → Result A
  failed : Result A
  ok : A → Result A

infixl 5 ◌>>=◌
abbrev pub ◌>>=◌ {ℓ κ} : {A : Type ℓ} {B : Type κ} → Result A → (A → Result B) → Result B
thrown kind >>= next = thrown kind
failed >>= next = failed
ok value >>= next = next value

-- A bind that drops the value of a check.
infixl 5 ◌>>◌
abbrev pub ◌>>◌ {ℓ} : {B : Type ℓ} → Result (Unit {0}) → Result B → Result B
check >> next = check >>= λ passed. next

-- `if (!test) throw …`
abbrev pub require : Bool → DomainErrorKind → Result (Unit {0})
require false kind = thrown kind
require true kind = ok tt

-- `if (!value) throw …`
abbrev pub or_throw {ℓ} : {A : Type ℓ} → Option A → DomainErrorKind → Result A
or_throw none kind = thrown kind
or_throw (some value) kind = ok value

-- A check that a successful block begins with has passed.
pub require-ok {ℓ} :
    {A : Type ℓ} (test : Bool) (kind : DomainErrorKind) (rest : Result A) (a : A)
    → (require test kind >> rest) ≡ ok a
    → (test ≡ true) × (rest ≡ ok a)
require-ok true kind rest a h = (refl, h)
require-ok false kind rest a h = cc

pub ok-injective {ℓ} : {A : Type ℓ} (a b : A) → ok a ≡ ok b → a ≡ b
ok-injective a b h = cc

pub Result-cases {ℓ} :
    {A : Type ℓ} (r : Result A)
    → ((a : A) × (r ≡ ok a)) ⊎ (((kind : DomainErrorKind) × (r ≡ thrown kind)) ⊎ (r ≡ failed))
Result-cases (ok a) = inl (a, refl)
Result-cases (thrown kind) = inr (inl (kind, refl))
Result-cases failed = inr (inr refl)
