-- ===== src/CloseDay/Job.antt =====
-- The daily close as a whole, between the writes of other transactions.
use delivery_driver_manageme.Base.{
  ℕ, ◌+◌, ◌==◌, ◌≡◌, refl, sym, subst, ◌∙◌, ◌⊎◌, false, none, some, List, [], ◌∷◌, inl, inr, arith,
  Bool-cases, length, All, All-map, All-find_row, All-find_by, All-select,
}
use delivery_driver_manageme.Schema.{Delivery}
use delivery_driver_manageme.Store.{Db, find_delivery, delivery_id}
use delivery_driver_manageme.CloseDay.{
  CloseArgs, CloseJob, is_unfinished, ends_unfinished, Turn, closed, skipped, refused,
  close_candidate, CloseResult, count_turn, close_each, unfinished, close_daily_deliveries,
}
use delivery_driver_manageme.CloseDay.Laws.{IsSound, IsTurn, close_candidate_effect}

count_turn-processed : (t : Turn) (r : CloseResult) → (count_turn t r).processed ≡ r.processed
unfolding count_turn
count_turn-processed t r = ground arith

count_turn-done :
    (t : Turn) (r : CloseResult)
    → ((t ≡ skipped) ⊎ (t ≡ closed))
    → ((count_turn t r).succeeded + (count_turn t r).skipped ≡ r.succeeded + r.skipped + 1)
      × ((count_turn t r).failed ≡ r.failed)
unfolding count_turn
count_turn-done closed r h = ground arith
count_turn-done skipped r h = ground arith
count_turn-done refused r (inl h) = cc
count_turn-done refused r (inr h) = cc

turn-cases :
    (args : CloseArgs) (job : CloseJob) (db : Db) (i : ℕ) (db' : Db) (t : Turn)
    → IsTurn args job db i db' t
    → (t ≡ skipped) ⊎ (t ≡ closed)
turn-cases args job db i db' t (inl h) = inl h.0
turn-cases args job db i db' t (inr h) = inr h.0

module _ (args : CloseArgs) (job : CloseJob) (now : ℕ) (new_id : ℕ → ℕ) where
  close_each_effect :
      (others : ℕ → Db → Db) (keeps : (k : ℕ) (db : Db) → IsSound db → IsSound (others k db))
      (db : Db) (ds : List Delivery) (r : CloseResult)
      → IsSound db
      → let (db', r') = close_each args job now new_id others db ds r in
        IsSound db'
        × (r'.succeeded + r'.skipped ≡ r.succeeded + r.skipped + length ds)
        × (r'.failed ≡ r.failed)
        × (r'.processed ≡ r.processed)
  unfolding close_each
  close_each_effect others keeps db [] r sound = (sound, omega arith, refl, refl)
  close_each_effect others keeps db (d ∷ ds) r sound =
      let before = others (length ds) db in
      let turned = close_candidate args job now (new_id (length ds)) before d.id in
      let (sound', turn) =
        close_candidate_effect args job now (new_id (length ds)) before (keeps _ db sound) d.id in
      let counted =
        count_turn-done turned.1 r (turn-cases args job before d.id turned.0 turned.1 turn) in
      let rest = close_each_effect others keeps turned.0 ds (count_turn turned.1 r) sound' in
      (
        rest.0,
        omega (arith, rest.1, counted.0),
        rest.2 ∙ counted.1,
        rest.3 ∙ count_turn-processed turned.1 r,
      )

  -- If the other transactions that run between its turns keep the yard consistent and the history rows
  -- unique, so does the daily close; none of its deliveries fails, and each counts as succeeded or skipped.
  pub close_daily_deliveries_effect :
      (others : ℕ → Db → Db) (keeps : (k : ℕ) (db : Db) → IsSound db → IsSound (others k db))
      (db : Db)
      → IsSound db
      → let (db', r) = close_daily_deliveries args job now new_id others db in
        IsSound db' × (r.failed ≡ 0) × (r.succeeded + r.skipped ≡ r.processed)
  unfolding close_daily_deliveries
  close_daily_deliveries_effect others keeps db sound =
      let e = close_each_effect others keeps db (unfinished args job db) _ sound in
      (e.0, e.2, omega (arith, e.1, e.3))

-- Without a location and units, the candidates depend on the delivery alone.
IsWhole : CloseArgs → Type 0
IsWhole args = (args.business_location_id ≡ none) × (args.unit_config_ids ≡ none)

-- A database that has lost deliveries and changed none.
abbrev IsLess : Db → Db → Type 0
IsLess db db' = (j : ℕ) → (find_delivery j db' ≡ none) ⊎ (find_delivery j db' ≡ find_delivery j db)

is_unfinished-whole :
    (args : CloseArgs) (job : CloseJob) (db : Db) (d : Delivery)
    → args.business_location_id ≡ none
    → args.unit_config_ids ≡ none
    → is_unfinished args job db d ≡ ends_unfinished args d
unfolding is_unfinished
is_unfinished-whole args job db d everywhere every = rw (everywhere, every) (ground arith)

module _ (args : CloseArgs) (job : CloseJob) (everywhere : args.business_location_id ≡ none)
    (every : args.unit_config_ids ≡ none) where
  -- What a turn leaves: nothing new, and not the delivery itself if it was unfinished.
  turn-IsLess :
      (db : Db) (i : ℕ) (db' : Db) (t : Turn)
      → IsTurn args job db i db' t
      → IsLess db db'
        × ((find_delivery i db' ≡ none)
            ⊎ ((d : Delivery) × (find_delivery i db' ≡ some d) × (ends_unfinished args d ≡ false)))
  turn-IsLess db i db' t (inl (_, same, inl gone)) = rw same ((λ j. inr refl), inl gone)
  turn-IsLess db i db' t (inl (_, same, inr (d, found, other))) = rw same (
    (λ j. inr refl),
    inr (d, found, sym (is_unfinished-whole args job db d everywhere every) ∙ other),
  )
  turn-IsLess db i db' t (inr (_, (d, r, _, _, gone, _, _), rest)) = (
    (λ j. elim (rest j) [
      | inl here ↦ inl (subst (λ z. find_delivery z db' ≡ none) here gone)
      | inr same ↦ inr same
    ]),
    inl gone,
  )

  -- Gone, or not unfinished.
  abbrev IsDone : Db → ℕ → Type 0
  IsDone db i =
      (find_delivery i db ≡ none)
      ⊎ ((d : Delivery) × (find_delivery i db ≡ some d) × (ends_unfinished args d ≡ false))

  less-IsDone : (db db' : Db) (i : ℕ) → IsLess db db' → IsDone db i → IsDone db' i
  less-IsDone db db' i less done = elim (less i) [
    | inl gone ↦ inl gone
    | inr same ↦ elim done [
      | inl gone ↦ inl (same ∙ gone)
      | inr (d, found, other) ↦ inr (d, same ∙ found, other)
    ]
  ]

  then-IsLess : (a b c : Db) → IsLess a b → IsLess b c → IsLess a c
  then-IsLess a b c first second j = elim (second j) [
    | inl gone ↦ inl gone
    | inr same ↦ elim (first j) [ inl gone ↦ inl (same ∙ gone) | inr same' ↦ inr (same ∙ same') ]
  ]

  still_there :
      (db last : Db) (d : Delivery)
      → find_delivery d.id last ≡ some d
      → find_delivery d.id db ≡ some d
      → All (λ (x : Delivery). IsDone last x.id) (unfinished args job db)
      → ends_unfinished args d ≡ false
  still_there db last d found before done = elim (Bool-cases (ends_unfinished args d)) [
    | inl due ↦
        let each =
          All-select (λ (x : Delivery). IsDone last x.id) (is_unfinished args job db) db.deliveries
            done in
        elim (All-find_by _ (λ (x : Delivery). x.id == d.id) db.deliveries d each before
          (is_unfinished-whole args job db d everywhere every ∙ due)) [
            | inl gone ↦ cc (gone, found)
            | inr (x, found', other) ↦ cc (found, found', other)
          ]
    | inr other ↦ other
  ]

  module _ (now : ℕ) (new_id : ℕ → ℕ) where
    close_each-IsDone :
        (db : Db) (ds : List Delivery) (r : CloseResult)
        → IsSound db
        → let db' = (close_each args job now new_id (λ k x. x) db ds r).0 in
          IsSound db' × IsLess db db' × All (λ (d : Delivery). IsDone db' d.id) ds
    unfolding close_each
    close_each-IsDone db [] r sound = (sound, (λ j. inr refl), tt)
    close_each-IsDone db (d ∷ ds) r sound =
        let turned = close_candidate args job now (new_id (length ds)) db d.id in
        let (sound', turn) =
          close_candidate_effect args job now (new_id (length ds)) db sound d.id in
        let (less, done) = turn-IsLess db d.id turned.0 turned.1 turn in
        let last =
          (close_each args job now new_id (λ k x. x) turned.0 ds (count_turn turned.1 r)).0 in
        let rest = close_each-IsDone turned.0 ds (count_turn turned.1 r) sound' in
        (
          rest.0,
          then-IsLess db turned.0 last less rest.1,
          (less-IsDone turned.0 last d.id rest.1 done, rest.2),
        )

    -- If nothing else runs meanwhile, a daily close of all locations and units leaves no delivery that was
    -- due to end unfinished on its day, and every delivery that is left is as it was.
    pub close_daily_deliveries_complete :
        (db : Db)
        → IsSound db
        → let db' = (close_daily_deliveries args job now new_id (λ k x. x) db).0 in
          All
            (λ d. (ends_unfinished args d ≡ false) × (find_delivery d.id db ≡ some d))
            db'.deliveries
    unfolding close_daily_deliveries
    close_daily_deliveries_complete db sound =
        let last = (close_daily_deliveries args job now new_id (λ k x. x) db).0 in
        let (sound', less, done) = close_each-IsDone db (unfinished args job db) _ sound in
        All-map (λ d. find_delivery d.id last ≡ some d) _ last.deliveries
          (λ d found. elim (less d.id) [
            | inl gone ↦ cc (gone, found)
            | inr same ↦ (still_there db last d found (sym same ∙ found) done, sym same ∙ found)
          ])
          (All-find_row delivery_id last.deliveries sound'.consistent.keyed.deliveries_unique)
