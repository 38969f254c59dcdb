-- ===== src/Registration/Fresh.antt =====
-- A reserved code differs from every code of its unit and day.
use delivery_driver_manageme.Base.{
  ℕ, ◌+◌, ◌<◌, ◌≤◌, ◌≡◌, ◌≢◌, refl, ap, ◌∙◌, sym, subst, Bool, true, max, or_else, some, List, [],
  ◌∷◌, All, All-map, All-select, select-All, arith, ==_refl, Option-cases, Bool-cases, inl, inr,
  find_by, update_by, select,
}
use delivery_driver_manageme.Schema.{Text, Delivery, RegistrationSequence}
use delivery_driver_manageme.Store.{Db}
use delivery_driver_manageme.Tickets.{Calendar}
use delivery_driver_manageme.Registration.{
  Spelling, registration_code_prefix, format_registration_code, has_code_of, code_number,
  max_number, get_existing_max_registration_number, is_counter_of, find_counter, increment,
  new_counter, upsert_counter, reserve_registration_code,
}
use delivery_driver_manageme.Registration.Codes.{code_number-format_registration_code}

-- The number of a row's code; one that is no number counts as 0.
abbrev pub number_of : Spelling → Text → Delivery → ℕ
number_of spelling prefix d = or_else (code_number spelling prefix d.registration_code) 0

module _ (calendar : Calendar) (spelling : Spelling) (location : Text)
    (key unit_config_id : ℕ) where
  abbrev prefix : Text
  prefix = registration_code_prefix spelling location unit_config_id key

  -- The row's number is below a bound, if it is a row of the unit and the day.
  abbrev pub IsBelow : ℕ → Delivery → Type 0
  IsBelow bound d =
      has_code_of calendar prefix unit_config_id key d ≡ true → number_of spelling prefix d < bound

  max_number-bounds :
      (highest : ℕ) (ds : List Delivery)
      → (highest ≤ max_number spelling prefix highest ds)
        × All (λ d. number_of spelling prefix d ≤ max_number spelling prefix highest ds) ds
  unfolding max_number
  max_number-bounds highest [] = (omega arith, tt)
  max_number-bounds highest (d ∷ ds) =
      let rest = max_number-bounds (max highest (number_of spelling prefix d)) ds in
      (omega (arith, rest.0), (omega (arith, rest.0), rest.1))

  IsBelow-existing_max :
      (db : Db)
      → All
          (IsBelow (
            get_existing_max_registration_number calendar spelling db location unit_config_id key
            + 1))
          db.deliveries
  unfolding get_existing_max_registration_number
  IsBelow-existing_max db =
      let test = has_code_of calendar prefix unit_config_id key in
      All-map _ _ db.deliveries (λ d le t. omega (arith, le t))
        (All-select
          (λ d.
            number_of spelling prefix d ≤ max_number spelling prefix 0 (select test db.deliveries))
          test db.deliveries (max_number-bounds 0 (select test db.deliveries)).1)

  -- The counter of the unit and the day, if there is one, is ahead of the numbers in use.
  pub record IsCounted (db : Db) : Type 0 where
    pub counted :
        (q : RegistrationSequence)
        → find_counter key unit_config_id db ≡ some q
        → All (IsBelow q.next_number) db.deliveries

  -- A row with the formatted code has its number.
  differs :
      (n : ℕ) (d : Delivery)
      → IsBelow n d
      → has_code_of calendar prefix unit_config_id key d ≡ true
      → d.registration_code ≢ format_registration_code spelling location unit_config_id key n
  differs n d below t e =
      let read = (code_number-format_registration_code spelling location unit_config_id key n).1 in
      let same_number : number_of spelling prefix d ≡ n =
        ap (λ code. or_else (code_number spelling prefix code) 0) e ∙ ap (λ o. or_else o 0) read in
      omega (arith, below t, same_number)

module _ (key unit_config_id : ℕ) where
  find_counter-increment :
      (xs : List RegistrationSequence) (q : RegistrationSequence)
      → find_by (is_counter_of key unit_config_id) xs ≡ some q
      → find_by
          (is_counter_of key unit_config_id)
          (update_by (is_counter_of key unit_config_id) increment xs)
        ≡ some (increment q)
  unfolding find_by update_by is_counter_of
  find_counter-increment [] q h = cc
  find_counter-increment (x ∷ xs) q h = elim (Bool-cases (is_counter_of key unit_config_id x)) [
    | inl here ↦ let e : x ≡ q = ground (arith, here) in rw (here, here, e) refl
    | inr there ↦ rw (there, there) (find_counter-increment xs q (rw there at h))
  ]

  find_counter-new :
      (unit next : ℕ) (xs : List RegistrationSequence)
      → find_by (is_counter_of key unit_config_id) (new_counter key unit unit_config_id next ∷ xs)
        ≡ some (new_counter key unit unit_config_id next)
  unfolding find_by is_counter_of
  find_counter-new unit next xs = rw (==_refl key, ==_refl unit_config_id) refl

-- The number `n` is new among the codes of the unit and the day, and the counter is right behind it.
pub record IsNew (calendar : Calendar) (spelling : Spelling) (location : Text)
    (key unit_config_id : ℕ) (db db' : Db) (n : ℕ) : Type 0 where
  pub counter : RegistrationSequence
  pub found : find_counter key unit_config_id db' ≡ some counter
  pub counts : counter.next_number ≡ n + 1
  pub rest : db' ≡ record db { registration_sequences = db'.registration_sequences }
  pub highest :
      All
        (λ d.
          number_of spelling (registration_code_prefix spelling location unit_config_id key) d < n)
        (select
          (has_code_of calendar
            (registration_code_prefix spelling location unit_config_id key)
            unit_config_id
            key)
          db.deliveries)
  pub unused :
      All
        (λ d. d.registration_code ≢ format_registration_code spelling location unit_config_id key n)
        (select
          (has_code_of calendar
            (registration_code_prefix spelling location unit_config_id key)
            unit_config_id
            key)
          db.deliveries)

module _ (calendar : Calendar) (spelling : Spelling) (db : Db) (unit_config_id : ℕ)
    (location : Text) (unit created_at : ℕ) where
  abbrev day : ℕ
  day = calendar.vn_date_key created_at

  abbrev test : Delivery → Bool
  test =
      has_code_of calendar (registration_code_prefix spelling location unit_config_id day)
        unit_config_id day

  bounded :
      (db' : Db) (n : ℕ) (counter : RegistrationSequence)
      → find_counter day unit_config_id db' ≡ some counter
      → counter.next_number ≡ n + 1
      → db' ≡ record db { registration_sequences = db'.registration_sequences }
      → All (IsBelow calendar spelling location day unit_config_id n) db.deliveries
      → IsNew calendar spelling location day unit_config_id db db' n
  bounded db' n counter found counts rest below = record {
    counter = counter;
    found = found;
    counts = counts;
    rest = rest;
    highest = select-All _ test db.deliveries below;
    unused = select-All _ test db.deliveries (
        All-map (IsBelow calendar spelling location day unit_config_id n) _ db.deliveries
          (λ d b t. differs calendar spelling location day unit_config_id n d b t) below);
  }

  -- While the counter of a unit and a day is ahead of the numbers in use, the code that is reserved has a
  -- number above that of every code of the unit and the day, and is none of them; the counter is right
  -- behind it, and nothing else changes.
  pub reserve_registration_code_effect :
      IsCounted calendar spelling location day unit_config_id db
      → (n : ℕ) × ((reserve_registration_code calendar spelling db unit_config_id location unit
            created_at).1
          ≡ format_registration_code spelling location unit_config_id day n)
        × IsNew calendar spelling location day unit_config_id db
            (reserve_registration_code calendar spelling db unit_config_id location unit
              created_at).0
            n
  unfolding reserve_registration_code upsert_counter
  reserve_registration_code_effect c =
      let existing =
        get_existing_max_registration_number calendar spelling db location unit_config_id day in
      elim (Option-cases (find_counter day unit_config_id db)) [
        | inl e ↦
            rw (e, reserve_registration_code, upsert_counter)
              (
                existing + 1,
                ap (format_registration_code spelling location unit_config_id day) (omega arith),
                bounded _ (existing + 1) (new_counter day unit unit_config_id (existing + 2))
                    (find_counter-new day unit_config_id unit (existing + 2)
                      db.registration_sequences)
                    (omega arith) refl
                    (IsBelow-existing_max calendar spelling location day unit_config_id db),
              )
        | inr (q, e) ↦
            rw (e, reserve_registration_code, upsert_counter)
              (
                q.next_number,
                ap (format_registration_code spelling location unit_config_id day) (omega arith),
                bounded _ q.next_number (increment q)
                    (find_counter-increment day unit_config_id db.registration_sequences q e) refl
                    refl (c.counted q e),
              )
      ]

-- Once a delivery is stored under the new code, the counter is ahead again.
pub IsNew-IsCounted :
    (calendar : Calendar) (spelling : Spelling) (location : Text) (key unit_config_id : ℕ)
    (db db' : Db) (n : ℕ) (d : Delivery)
    → IsNew calendar spelling location key unit_config_id db db' n
    → d.registration_code ≡ format_registration_code spelling location unit_config_id key n
    → IsCounted calendar spelling location key unit_config_id
        (record db' { deliveries = d ∷ db'.deliveries })
IsNew-IsCounted calendar spelling location key unit_config_id db db' n d new e = record {
  counted = λ q found.
      let prefix = registration_code_prefix spelling location unit_config_id key in
      let test = has_code_of calendar prefix unit_config_id key in
      let same_counter : some q ≡ some new.counter = sym found ∙ new.found in
      let next : q.next_number ≡ n + 1 = cc (same_counter, new.counts) in
      let read = (code_number-format_registration_code spelling location unit_config_id key n).1 in
      let own : number_of spelling prefix d ≡ n =
        ap (λ code. or_else (code_number spelling prefix code) 0) e ∙ ap (λ o. or_else o 0) read in
      (
        (λ t. omega (arith, own, next)),
        subst (All (IsBelow calendar spelling location key unit_config_id q.next_number))
            (ap (λ z. z.deliveries) (sym new.rest))
            (All-map (λ x. test x ≡ true → number_of spelling prefix x < n) _ db.deliveries
              (λ x below t. omega (arith, below t, next))
              (All-select (λ x. number_of spelling prefix x < n) test db.deliveries new.highest)),
      );
}
