-- ===== src/Base/Equality.antt =====
-- Equality as an interface: the operator `===` and `includes` for every type that has a test.
use Prim.Native.Nat.{ℕ}
use mathlib.Core.Path.{◌≡◌}
use mathlib.Core.Logic.{◌↔◌}
use mathlib.Core.Bool.{Bool, true, false, ◌||◌}
use mathlib.Core.List.{List, [], ◌∷◌}
use delivery_driver_manageme.Base.Tests.{==_iff}
use delivery_driver_manageme.Base.Tests.{◌==◌}

pub record Eq {ℓ} (A : Type ℓ) : Type ℓ where
  pub eq : A → A → Bool
  pub eq_iff : (a b : A) → (eq a b ≡ true) ↔ (a ≡ b)

infix 50 ◌===◌
abbrev pub ◌===◌ {ℓ} : {A : Type ℓ} ⦃e : Eq A⦄ → A → A → Bool
◌===◌ ⦃e⦄ = e.eq

instance abbrev pub nat_eq : Eq ℕ
nat_eq = record { eq = ◌==◌; eq_iff = ==_iff }

-- `xs.includes(a)`
abbrev pub includes {ℓ} : {A : Type ℓ} ⦃e : Eq A⦄ → List A → A → Bool
includes [] a = false
includes (x ∷ xs) a = a === x || includes xs a

-- A test by codes is equality when no two values have one code.
pub code_iff {ℓ} :
    {A : Type ℓ} (code : A → ℕ)
    → ((a b : A) → code a ≡ code b → a ≡ b)
    → (a b : A) → ((code a == code b) ≡ true) ↔ (a ≡ b)
code_iff code inj a b =
    (λ h. inj a b ((==_iff (code a) (code b)).0 h), λ h. (==_iff (code a) (code b)).1 (cc h))
