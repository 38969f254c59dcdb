-- ===== src/Base/Sorting.antt =====
-- `xs.sort(compare)`, stable, and `[...new Set(xs)]`.
use mathlib.Core.Path.{◌≡◌, refl, ap}
use mathlib.Core.Logic.{inl, inr}
use mathlib.Core.Bool.{Bool, true, false, not, ◌&&◌, ◌||◌}
use mathlib.Core.List.{List, [], ◌∷◌, ◌++◌}
use native.Mathlib.Omega.{arith}
use delivery_driver_manageme.Base.Tests.{if◌then◌else◌, Bool-cases}
use delivery_driver_manageme.Base.Lists.{All, select}
use delivery_driver_manageme.Base.Equality.{Eq, ◌===◌, includes}

module _ {ℓ} {A : Type ℓ} (before : A → A → Bool) where
  -- An element goes behind those that must stand before it.
  unfoldable pub insert_by : A → List A → List A
  insert_by x [] = x ∷ []
  insert_by x (y ∷ ys) = let rest = insert_by x ys in if before y x then y ∷ rest else x ∷ y ∷ ys

  unfoldable pub sort_by : List A → List A
  sort_by [] = []
  sort_by (x ∷ xs) = insert_by x (sort_by xs)

  All-insert_by {κ} :
      (P : A → Type κ) (x : A) (xs : List A) → All P (insert_by x xs) → P x × All P xs
  unfolding insert_by
  All-insert_by P x [] h = h
  All-insert_by P x (y ∷ ys) h = elim (Bool-cases (before y x)) [
    | inl first ↦
        let h' : P y × All P (insert_by x ys) = rw first at h in
        let (px, pys) = All-insert_by P x ys h'.1 in (px, (h'.0, pys))
    | inr last ↦ rw last at h
  ]

  -- Sorting loses nothing.
  pub All-sort_by {κ} : (P : A → Type κ) (xs : List A) → All P (sort_by xs) → All P xs
  unfolding sort_by
  All-sort_by P [] h = tt
  All-sort_by P (x ∷ xs) h =
      let (px, pxs) = All-insert_by P x (sort_by xs) h in (px, All-sort_by P xs pxs)

  insert_by-All {κ} :
      (P : A → Type κ) (x : A) (xs : List A) → P x → All P xs → All P (insert_by x xs)
  unfolding insert_by
  insert_by-All P x [] p h = (p, tt)
  insert_by-All P x (y ∷ ys) p h = elim (Bool-cases (before y x)) [
    | inl first ↦ rw first (h.0, insert_by-All P x ys p h.1)
    | inr last ↦ rw last (p, h)
  ]

  -- Sorting adds nothing.
  pub sort_by-All {κ} : (P : A → Type κ) (xs : List A) → All P xs → All P (sort_by xs)
  unfolding sort_by
  sort_by-All P [] h = tt
  sort_by-All P (x ∷ xs) h = insert_by-All P x (sort_by xs) h.0 (sort_by-All P xs h.1)

module _ {ℓ} {A : Type ℓ} ⦃e : Eq A⦄ where
  -- `[...new Set(xs)]`: the first of equal elements stays.
  unfoldable pub distinct : List A → List A
  distinct [] = []
  distinct (x ∷ xs) = x ∷ select (λ y. not (y === x)) (distinct xs)

  -- No element twice.
  abbrev pub IsDistinct : List A → Type 0
  IsDistinct [] = Unit {0}
  IsDistinct (x ∷ xs) = (includes xs x ≡ false) × IsDistinct xs

  pub includes-append :
      (a : A) (xs ys : List A) → includes (xs ++ ys) a ≡ (includes xs a || includes ys a)
  includes-append a [] ys = refl
  includes-append a (x ∷ xs) ys = ground (arith, includes-append a xs ys)

  same_test : (test : A → Bool) (a x : A) → (a === x) ≡ true → test a ≡ test x
  same_test test a x h = ap test ((e.eq_iff a x).0 h)

  pub includes-select :
      (test : A → Bool) (a : A) (xs : List A)
      → includes (select test xs) a ≡ (includes xs a && test a)
  unfolding select
  includes-select test a [] = refl
  includes-select test a (x ∷ xs) = elim (Bool-cases (a === x)) [
    | inl here ↦ ground (arith, here, same_test test a x here, includes-select test a xs)
    | inr there ↦ ground (arith, there, includes-select test a xs)
  ]

  -- The same elements.
  pub includes-distinct : (a : A) (xs : List A) → includes (distinct xs) a ≡ includes xs a
  unfolding distinct
  includes-distinct a [] = refl
  includes-distinct a (x ∷ xs) =
      ground (arith, includes-distinct a xs, includes-select (λ y. not (y === x)) a (distinct xs))

  select-IsDistinct : (test : A → Bool) (xs : List A) → IsDistinct xs → IsDistinct (select test xs)
  unfolding select
  select-IsDistinct test [] h = tt
  select-IsDistinct test (x ∷ xs) h = elim (Bool-cases (test x)) [
    | inl pass ↦ rw pass (rw (includes-select test x xs, h.0) refl, select-IsDistinct test xs h.1)
    | inr fail ↦ rw fail (select-IsDistinct test xs h.1)
  ]

  pub distinct-IsDistinct : (xs : List A) → IsDistinct (distinct xs)
  unfolding distinct
  distinct-IsDistinct [] = tt
  distinct-IsDistinct (x ∷ xs) = (
    rw (includes-select (λ y. not (y === x)) x (distinct xs), (e.eq_iff x x).1 refl) (ground arith),
    select-IsDistinct (λ y. not (y === x)) (distinct xs) (distinct-IsDistinct xs),
  )
