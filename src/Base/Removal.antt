-- ===== src/Base/Removal.antt =====
-- `delete({ where: { id } })`: a table without the rows of a key.
use Prim.Native.Nat.{ℕ, ◌+◌}
use mathlib.Core.Path.{◌≡◌, refl, subst}
use mathlib.Core.Bool.{Bool, true, false, not, ◌&&◌}
use mathlib.Core.Logic.{inl, inr}
use mathlib.Core.List.{List, [], ◌∷◌}
use mathlib.Core.Option.{none, some}
use native.Mathlib.Omega.{arith}
use delivery_driver_manageme.Base.Tests.{◌==◌, bit, Bool-cases, ==_iff}
use delivery_driver_manageme.Base.Lists.{find_by, count_by, any, select}
use delivery_driver_manageme.Base.Tables.{find_row, has_row, Unique, count_by-except}

module _ {ℓ} {A : Type ℓ} (key : A → ℕ) where
  unfoldable pub delete_row : ℕ → List A → List A
  delete_row i = select (λ x. not (key x == i))

  pub find_row-delete_row_self : (i : ℕ) (xs : List A) → find_row key i (delete_row i xs) ≡ none
  unfolding find_by select delete_row
  find_row-delete_row_self i [] = refl
  find_row-delete_row_self i (x ∷ xs) = ground (arith, find_row-delete_row_self i xs)

  pub find_row-delete_row_ne :
      (i j : ℕ) (xs : List A)
      → (i == j) ≡ false
      → find_row key j (delete_row i xs) ≡ find_row key j xs
  unfolding find_by select delete_row
  find_row-delete_row_ne i j [] h = refl
  find_row-delete_row_ne i j (x ∷ xs) h = ground (arith, find_row-delete_row_ne i j xs)

  has_row-delete_row :
      (i j : ℕ) (xs : List A) → has_row key j xs ≡ false → has_row key j (delete_row i xs) ≡ false
  unfolding any select delete_row
  has_row-delete_row i j [] h = refl
  has_row-delete_row i j (x ∷ xs) h = ground (arith, has_row-delete_row i j xs)

  pub delete_row-Unique : (i : ℕ) (xs : List A) → Unique key xs → Unique key (delete_row i xs)
  unfolding select delete_row
  delete_row-Unique i [] u = tt
  delete_row-Unique i (x ∷ xs) u = elim (Bool-cases (key x == i)) [
    | inl gone ↦ rw gone (delete_row-Unique i xs u.1)
    | inr stays ↦ rw stays (has_row-delete_row i (key x) xs u.0, delete_row-Unique i xs u.1)
  ]

  count_by-delete_row_except :
      (test : A → Bool) (i : ℕ) (xs : List A)
      → count_by test (delete_row i xs) ≡ count_by (λ y. test y && not (key y == i)) xs
  unfolding count_by select delete_row
  count_by-delete_row_except test i [] = refl
  count_by-delete_row_except test i (x ∷ xs) = ground (arith, count_by-delete_row_except test i xs)

  -- Deleting a row lowers a count by what the row contributed.
  pub count_by-delete_row :
      (test : A → Bool) (i : ℕ) (xs : List A) (x : A)
      → Unique key xs
      → find_row key i xs ≡ some x
      → count_by test (delete_row i xs) + bit (test x) ≡ count_by test xs
  count_by-delete_row test i xs x u h =
      rw (count_by-delete_row_except test i xs) (count_by-except key test i xs x u h)

  -- Keeping the rows that pass a test.
  has_row-select :
      (test : A → Bool) (j : ℕ) (xs : List A)
      → has_row key j xs ≡ false
      → has_row key j (select test xs) ≡ false
  unfolding any select
  has_row-select test j [] h = refl
  has_row-select test j (x ∷ xs) h = ground (arith, has_row-select test j xs)

  pub select-Unique : (test : A → Bool) (xs : List A) → Unique key xs → Unique key (select test xs)
  unfolding select
  select-Unique test [] u = tt
  select-Unique test (x ∷ xs) u = elim (Bool-cases (test x)) [
    | inl stays ↦ rw stays (has_row-select test (key x) xs u.0, select-Unique test xs u.1)
    | inr gone ↦ rw gone (select-Unique test xs u.1)
  ]

  find_row-absent : (i : ℕ) (xs : List A) → has_row key i xs ≡ false → find_row key i xs ≡ none
  unfolding find_by any
  find_row-absent i [] h = refl
  find_row-absent i (x ∷ xs) h = ground (arith, find_row-absent i xs)

  pub find_row-select_kept :
      (test : A → Bool) (i : ℕ) (xs : List A) (x : A)
      → find_row key i xs ≡ some x
      → test x ≡ true
      → find_row key i (select test xs) ≡ some x
  unfolding find_by select
  find_row-select_kept test i [] x h t = cc
  find_row-select_kept test i (y ∷ ys) x h t = elim (Bool-cases (key y == i)) [
    | inl here ↦
        let e : y ≡ x = ground (arith, here) in
        let own : (key x == i) ≡ true = subst (λ z. (key z == i) ≡ true) e here in
        rw (e, t, own) refl
    | inr there ↦
        let rest = find_row-select_kept test i ys x (rw there at h) t in
        elim (Bool-cases (test y)) [ inl stays ↦ rw (stays, there) rest | inr gone ↦ rw gone rest ]
  ]

  pub find_row-select_absent :
      (test : A → Bool) (i : ℕ) (xs : List A)
      → find_row key i xs ≡ none
      → find_row key i (select test xs) ≡ none
  unfolding find_by select
  find_row-select_absent test i [] h = refl
  find_row-select_absent test i (x ∷ xs) h = ground (arith, find_row-select_absent test i xs)

  pub find_row-select_gone :
      (test : A → Bool) (i : ℕ) (xs : List A) (x : A)
      → Unique key xs
      → find_row key i xs ≡ some x
      → test x ≡ false
      → find_row key i (select test xs) ≡ none
  unfolding find_by select
  find_row-select_gone test i [] x u h t = cc
  find_row-select_gone test i (y ∷ ys) x u h t = elim (Bool-cases (key y == i)) [
    | inl here ↦
        let e : y ≡ x = ground (arith, here) in
        let absent : has_row key i ys ≡ false = rw (← (==_iff _ _).0 here) u.0 in
        rw (e, t) (find_row-select_absent test i ys (find_row-absent i ys absent))
    | inr there ↦
        let rest = find_row-select_gone test i ys x u.1 (rw there at h) t in
        elim (Bool-cases (test y)) [ inl stays ↦ rw (stays, there) rest | inr gone ↦ rw gone rest ]
  ]

  pub count_by-select_quiet :
      (counted test : A → Bool) (xs : List A)
      → ((x : A) → test x ≡ false → bit (counted x) ≡ 0)
      → count_by counted (select test xs) ≡ count_by counted xs
  unfolding count_by select
  count_by-select_quiet counted test [] quiet = refl
  count_by-select_quiet counted test (x ∷ xs) quiet =
      let rest = count_by-select_quiet counted test xs quiet in
      elim (Bool-cases (test x)) [
        | inl stays ↦ rw stays (omega (arith, rest))
        | inr gone ↦ rw gone (omega (arith, rest, quiet x gone))
      ]
