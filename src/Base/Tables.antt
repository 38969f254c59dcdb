-- ===== src/Base/Tables.antt =====
-- Tables whose rows have a unique key: a row found by its key, and an update of that row.
use Prim.Native.Nat.{ℕ, ◌+◌}
use mathlib.Core.Path.{◌≡◌, refl}
use mathlib.Core.Bool.{Bool, false, not, ◌&&◌}
use mathlib.Core.Logic.{inl, inr}
use mathlib.Core.List.{List, [], ◌∷◌}
use mathlib.Core.Option.{Option, none, some}
use native.Mathlib.Omega.{arith}
use delivery_driver_manageme.Base.Tests.{◌==◌, bit, Bool-cases, ==_iff}
use delivery_driver_manageme.Base.Lists.{All, find_by, count_by, any, update_by}

module _ {ℓ} {A : Type ℓ} (key : A → ℕ) where
  -- `findUnique({ where: { id } })`
  abbrev pub find_row : ℕ → List A → Option A
  find_row i = find_by (λ x. key x == i)

  -- `update({ where: { id }, data })`
  abbrev pub update_row : ℕ → (A → A) → List A → List A
  update_row i = update_by (λ x. key x == i)

  abbrev pub has_row : ℕ → List A → Bool
  has_row i = any (λ x. key x == i)

  -- The primary key: no two rows have one key.
  abbrev pub Unique : List A → Type 0
  Unique [] = Unit {0}
  Unique (x ∷ xs) = (has_row (key x) xs ≡ false) × Unique xs

  pub key-find_row : (i : ℕ) (xs : List A) (x : A) → find_row i xs ≡ some x → key x ≡ i
  unfolding find_by
  key-find_row i [] x h = cc
  key-find_row i (y ∷ ys) x h = elim (Bool-cases (key y == i)) [
    | inl here ↦ let e : y ≡ x = ground (arith, here) in rw (← e) ((==_iff _ _).0 here)
    | inr there ↦ key-find_row i ys x (rw there at h)
  ]

  pub find_row-none : (i : ℕ) (xs : List A) → has_row i xs ≡ false → find_row i xs ≡ none
  unfolding find_by any
  find_row-none i [] h = refl
  find_row-none i (x ∷ xs) h = ground (arith, find_row-none i xs)

  pub update_row-absent :
      (i : ℕ) (f : A → A) (xs : List A) → has_row i xs ≡ false → update_row i f xs ≡ xs
  unfolding update_by any
  update_row-absent i f [] h = refl
  update_row-absent i f (x ∷ xs) h = ground (arith, update_row-absent i f xs)

  pub update_row-none :
      (i : ℕ) (f : A → A) (xs : List A) → find_row i xs ≡ none → update_row i f xs ≡ xs
  unfolding update_by find_by
  update_row-none i f [] h = refl
  update_row-none i f (x ∷ xs) h = ground (arith, update_row-none i f xs)

  -- What holds of every row after an update: `f` establishes it at the key, and it stays elsewhere.
  pub All-update_row {κ κ'} :
      (P : A → Type κ) (Q : A → Type κ') (i : ℕ) (f : A → A)
      → ((x : A) → key x ≡ i → P x → Q (f x))
      → ((x : A) → (key x == i) ≡ false → P x → Q x)
      → (xs : List A) → All P xs
      → All Q (update_row i f xs)
  unfolding update_by
  All-update_row P Q i f at_key elsewhere [] h = tt
  All-update_row P Q i f at_key elsewhere (x ∷ xs) h =
      let rest = All-update_row P Q i f at_key elsewhere xs h.1 in
      elim (Bool-cases (key x == i)) [
        | inl here ↦ rw here (at_key x ((==_iff _ _).0 here) h.0, rest)
        | inr there ↦ rw there (elsewhere x there h.0, rest)
      ]

  All-absent_row :
      (i : ℕ) (x : A) (xs : List A) → has_row i xs ≡ false → All (λ y. key y ≡ i → y ≡ x) xs
  unfolding any
  All-absent_row i x [] h = tt
  All-absent_row i x (y ∷ ys) h =
      let other : (key y == i) ≡ false = ground arith in
      ((λ e. cc (other, (==_iff (key y) i).1 e)), All-absent_row i x ys (ground arith))

  -- Only one row has a key.
  pub All-same_row :
      (i : ℕ) (xs : List A) (x : A)
      → Unique xs
      → find_row i xs ≡ some x
      → All (λ y. key y ≡ i → y ≡ x) xs
  unfolding find_by
  All-same_row i [] x u h = tt
  All-same_row i (y ∷ ys) x u h = elim (Bool-cases (key y == i)) [
    | inl here ↦
        let e : y ≡ x = ground (arith, here) in
        let gone : has_row i ys ≡ false = rw (← (==_iff _ _).0 here) u.0 in
        ((λ _. e), All-absent_row i x ys gone)
    | inr there ↦ ((λ e. cc (there, (==_iff _ _).1 e)), All-same_row i ys x u.1 (rw there at h))
  ]

  -- Updating one row changes a count by what that row contributes.
  pub count_by-update_row :
      (test : A → Bool) (i : ℕ) (f : A → A) (xs : List A) (x : A)
      → Unique xs
      → find_row i xs ≡ some x
      → count_by test (update_row i f xs) + bit (test x) ≡ count_by test xs + bit (test (f x))
  unfolding count_by update_by find_by
  count_by-update_row test i f [] x u h = cc
  count_by-update_row test i f (y ∷ ys) x u h = elim (Bool-cases (key y == i)) [
    | inl here ↦
        let e : y ≡ x = ground (arith, here) in
        let gone : has_row i ys ≡ false = rw (← (==_iff _ _).0 here) u.0 in
        rw (here, update_row-absent i f ys gone, e) (omega arith)
    | inr there ↦
        let ih = count_by-update_row test i f ys x u.1 (rw there at h) in
        rw there (omega (arith, ih))
  ]

  count_by-absent :
      (test : A → Bool) (i : ℕ) (xs : List A)
      → has_row i xs ≡ false
      → count_by (λ y. test y && not (key y == i)) xs ≡ count_by test xs
  unfolding count_by any
  count_by-absent test i [] h = refl
  count_by-absent test i (x ∷ xs) h = ground (arith, count_by-absent test i xs)

  -- Leaving one row out of a count.
  pub count_by-except :
      (test : A → Bool) (i : ℕ) (xs : List A) (x : A)
      → Unique xs
      → find_row i xs ≡ some x
      → count_by (λ y. test y && not (key y == i)) xs + bit (test x) ≡ count_by test xs
  unfolding count_by find_by
  count_by-except test i [] x u h = cc
  count_by-except test i (y ∷ ys) x u h = elim (Bool-cases (key y == i)) [
    | inl here ↦
        let e : y ≡ x = ground (arith, here) in
        let gone : has_row i ys ≡ false = rw (← (==_iff _ _).0 here) u.0 in
        let rest = count_by-absent test i ys gone in
        let own : bit (test y) ≡ bit (test x) = rw e refl in ground (arith, here, rest, own)
    | inr there ↦
        let ih = count_by-except test i ys x u.1 (rw there at h) in ground (arith, there, ih)
  ]

  -- A row that is not there counts for nothing.
  pub count_by-zero : (test : A → Bool) (xs : List A) → any test xs ≡ false → count_by test xs ≡ 0
  unfolding count_by any
  count_by-zero test [] h = refl
  count_by-zero test (x ∷ xs) h = ground (arith, count_by-zero test xs)

  module _ (f : A → A) (keep : (x : A) → key (f x) ≡ key x) where
    pub has_row-update_row : (i j : ℕ) (xs : List A) → has_row j (update_row i f xs) ≡ has_row j xs
    unfolding any update_by
    has_row-update_row i j [] = refl
    has_row-update_row i j (x ∷ xs) = ground (arith, keep x, has_row-update_row i j xs)

    pub update_row-Unique : (i : ℕ) (xs : List A) → Unique xs → Unique (update_row i f xs)
    unfolding update_by
    update_row-Unique i [] u = tt
    update_row-Unique i (x ∷ xs) u = elim (Bool-cases (key x == i)) [
      | inl here ↦
          rw here (rw (keep x, has_row-update_row i (key x) xs) u.0, update_row-Unique i xs u.1)
      | inr there ↦ rw there (rw (has_row-update_row i (key x) xs) u.0, update_row-Unique i xs u.1)
    ]

    pub find_row-update_row_self :
        (i : ℕ) (xs : List A) (x : A)
        → find_row i xs ≡ some x
        → find_row i (update_row i f xs) ≡ some (f x)
    unfolding find_by update_by
    find_row-update_row_self i [] x h = cc
    find_row-update_row_self i (y ∷ ys) x h = elim (Bool-cases (key y == i)) [
      | inl here ↦ let e : y ≡ x = ground (arith, here) in rw (here, keep y, here, e) refl
      | inr there ↦ rw (there, there) (find_row-update_row_self i ys x (rw there at h))
    ]

    pub find_row-update_row_ne :
        (i j : ℕ) (xs : List A) → (i == j) ≡ false → find_row j (update_row i f xs) ≡ find_row j xs
    unfolding find_by update_by
    find_row-update_row_ne i j [] h = refl
    find_row-update_row_ne i j (x ∷ xs) h = ground (arith, keep x, find_row-update_row_ne i j xs)
