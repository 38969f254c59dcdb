-- ===== src/Base/Queries.antt =====
-- What a query returns: `SELECT … WHERE test ORDER BY before LIMIT 1` as the first of the selected
-- rows.
use Prim.Native.Nat.{ℕ}
use mathlib.Core.Path.{◌≡◌, refl, sym, subst}
use mathlib.Core.Logic.{inl, inr}
use mathlib.Core.Bool.{Bool, true, false}
use mathlib.Core.List.{List, [], ◌∷◌, Memᴰ}
use mathlib.Core.Option.{some}
use native.Mathlib.Omega.{arith}
use delivery_driver_manageme.Base.Tests.{◌==◌, Bool-cases, Option-cases, ==_iff, ==_refl}
use delivery_driver_manageme.Base.Lists.{All, find_by, any, select, first_by, first_by-none}
use delivery_driver_manageme.Base.Tables.{find_row, has_row, Unique}

module _ {ℓ} {A : Type ℓ} where
  pub Memᴰ-first_by :
      (before : A → A → Bool) (xs : List A) (y : A) → first_by before xs ≡ some y → Memᴰ y xs
  unfolding first_by
  Memᴰ-first_by before [] y h = cc
  Memᴰ-first_by before (x ∷ xs) y h = elim (Option-cases (first_by before xs)) [
    | inl empty ↦ Memᴰ.head (sym (ground (arith, empty)))
    | inr (z, e) ↦ elim (Bool-cases (before z x)) [
      | inl sooner ↦ Memᴰ.tail (Memᴰ-first_by before xs y (ground (arith, e, sooner)))
      | inr later ↦ Memᴰ.head (sym (ground (arith, e, later)))
    ]
  ]

  Memᴰ-select_hit :
      (test : A → Bool) (x : A) (xs : List A) (y : A)
      → test x ≡ true
      → (Memᴰ y (select test xs) → Memᴰ y xs × (test y ≡ true))
      → Memᴰ y (x ∷ select test xs)
      → Memᴰ y (x ∷ xs) × (test y ≡ true)
  Memᴰ-select_hit test x xs y pass rest (Memᴰ.head e) = (Memᴰ.head e, rw e pass)
  Memᴰ-select_hit test x xs y pass rest (Memᴰ.tail m) = let (m', t) = rest m in (Memᴰ.tail m', t)

  pub Memᴰ-select :
      (test : A → Bool) (xs : List A) (y : A)
      → Memᴰ y (select test xs)
      → Memᴰ y xs × (test y ≡ true)
  unfolding select
  Memᴰ-select test [] y h = elim h [ ]
  Memᴰ-select test (x ∷ xs) y h = elim (Bool-cases (test x)) [
    | inl pass ↦ Memᴰ-select_hit test x xs y pass (Memᴰ-select test xs y) (rw pass at h)
    | inr fail ↦ let (m, t) = Memᴰ-select test xs y (rw fail at h) in (Memᴰ.tail m, t)
  ]

  -- A test that fails on all selected rows fails on every row that passes the selection.
  pub All-select {κ} :
      (P : A → Type κ) (test : A → Bool) (xs : List A)
      → All P (select test xs)
      → All (λ x. test x ≡ true → P x) xs
  unfolding select
  All-select P test [] h = tt
  All-select P test (x ∷ xs) h = elim (Bool-cases (test x)) [
    | inl pass ↦
        let h' : P x × All P (select test xs) = rw pass at h in
        ((λ _. h'.0), All-select P test xs h'.1)
    | inr fail ↦ ((λ p. cc), All-select P test xs (rw fail at h))
  ]

  pub select-All {κ} :
      (P : A → Type κ) (test : A → Bool) (xs : List A)
      → All (λ x. test x ≡ true → P x) xs
      → All P (select test xs)
  unfolding select
  select-All P test [] h = tt
  select-All P test (x ∷ xs) h = elim (Bool-cases (test x)) [
    | inl pass ↦ rw pass (h.0 pass, select-All P test xs h.1)
    | inr fail ↦ rw fail (select-All P test xs h.1)
  ]

  pub select-nil :
      (test : A → Bool) (xs : List A) → select test xs ≡ [] → All (λ x. test x ≡ false) xs
  unfolding select
  select-nil test [] h = tt
  select-nil test (x ∷ xs) h = elim (Bool-cases (test x)) [
    | inl pass ↦ let h' : x ∷ select test xs ≡ [] = rw pass at h in cc
    | inr fail ↦ (fail, select-nil test xs (rw fail at h))
  ]

  module _ (before : A → A → Bool) (asym : (a b : A) → before a b ≡ true → before b a ≡ false)
      (trans : (a b c : A) → before b a ≡ false → before c b ≡ false → before c a ≡ false) where
    irrefl : (a : A) → before a a ≡ false
    irrefl a = elim (Bool-cases (before a a)) [ inl h ↦ asym a a h | inr h ↦ h ]

    not_before_mono :
        (y z : A) (xs : List A)
        → before z y ≡ false
        → All (λ x. before x z ≡ false) xs
        → All (λ x. before x y ≡ false) xs
    not_before_mono y z [] h a = tt
    not_before_mono y z (x ∷ xs) h a = (trans y z x h a.0, not_before_mono y z xs h a.1)

    -- No row comes before the first.
    pub first_by_least :
        (xs : List A) (y : A) → first_by before xs ≡ some y → All (λ x. before x y ≡ false) xs
    unfolding first_by
    first_by_least [] y h = tt
    first_by_least (x ∷ xs) y h = elim (Option-cases (first_by before xs)) [
      | inl empty ↦
          let e : x ≡ y = ground (arith, empty) in
          (rw (← e) (irrefl x), rw (first_by-none before xs empty) tt)
      | inr (z, e) ↦ elim (Bool-cases (before z x)) [
        | inl sooner ↦
            let e' : z ≡ y = ground (arith, e, sooner) in
            (
              rw (← e') (asym z x sooner),
              subst (λ w. All (λ a. before a w ≡ false) xs) e' (first_by_least xs z e),
            )
        | inr later ↦
            let e' : x ≡ y = ground (arith, e, later) in
            (
              rw (← e') (irrefl x),
              subst (λ w. All (λ a. before a w ≡ false) xs) e'
                  (not_before_mono x z xs later (first_by_least xs z e)),
            )
      ]
    ]

module _ {ℓ} {A : Type ℓ} (key : A → ℕ) where
  has_row_of_mem : (xs : List A) (y : A) → Memᴰ y xs → has_row key (key y) xs ≡ true
  unfolding any
  has_row_of_mem [] y h = elim h [ ]
  has_row_of_mem (x ∷ xs) y (Memᴰ.head e) = rw (← e, ==_refl (key y)) refl
  has_row_of_mem (x ∷ xs) y (Memᴰ.tail m) = ground (arith, has_row_of_mem xs y m)

  -- A row of the table is the one found by its key.
  pub find_row_of_mem :
      (xs : List A) (y : A) → Unique key xs → Memᴰ y xs → find_row key (key y) xs ≡ some y
  unfolding find_by
  find_row_of_mem [] y u h = elim h [ ]
  find_row_of_mem (x ∷ xs) y u (Memᴰ.head e) = rw (← e, ==_refl (key y)) refl
  find_row_of_mem (x ∷ xs) y u (Memᴰ.tail m) = elim (Bool-cases (key x == key y)) [
    | inl clash ↦ cc (has_row_of_mem xs y m, rw ((==_iff _ _).0 clash) at u.0)
    | inr other ↦ rw other (find_row_of_mem xs y u.1 m)
  ]

  All-mem {κ} : (P : A → Type κ) (xs : List A) → ((x : A) → Memᴰ x xs → P x) → All P xs
  All-mem P [] f = tt
  All-mem P (x ∷ xs) f = (f x (Memᴰ.head refl), All-mem P xs (λ y m. f y (Memᴰ.tail m)))

  -- Each row of a table is found by its key.
  pub All-find_row : (xs : List A) → Unique key xs → All (λ x. find_row key (key x) xs ≡ some x) xs
  All-find_row xs u = All-mem _ xs (λ x m. find_row_of_mem xs x u m)

-- What holds of every row holds of the row that is found.
pub All-find_by {ℓ κ} :
    {A : Type ℓ} (P : A → Type κ) (test : A → Bool) (xs : List A) (x : A)
    → All P xs
    → find_by test xs ≡ some x
    → P x
unfolding find_by
All-find_by P test [] x h e = cc
All-find_by P test (y ∷ ys) x h e = elim (Bool-cases (test y)) [
  | inl pass ↦ let same : y ≡ x = ground (arith, pass) in subst P same h.0
  | inr fail ↦ All-find_by P test ys x h.1 (rw fail at e)
]
