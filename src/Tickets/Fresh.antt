-- ===== src/Tickets/Fresh.antt =====
-- A reserved number is higher than every number of its queue, and the counters stay ahead.
use delivery_driver_manageme.Base.{
  ℕ, ◌+◌, ◌<◌, ◌==◌, ◌≡◌, refl, ==_refl, Bool, true, false, ◌&&◌, some, List, [], ◌∷◌, All, All-map,
  arith, select, first_by, first_by-none, first_by_least, select-nil, All-select, Option-cases,
  Bool-cases, inl, inr, find_by, update_by, ◌===◌,
}
use delivery_driver_manageme.Schema.{
  VehicleType, vehicle_eq, vehicle_code, Delivery, TicketSequence,
}
use delivery_driver_manageme.Store.{Db}
use delivery_driver_manageme.Tickets.{
  Calendar, has_ticket_of, ticket_of, higher_ticket, get_existing_max_ticket_number, is_sequence_of,
  find_sequence, increment, new_sequence, upsert_sequence, reserve_ticket_number,
}

module _ (calendar : Calendar) where
  -- All numbers of a queue are below a bound.
  abbrev pub IsBelow : ℕ → ℕ → VehicleType → ℕ → Delivery → Type 0
  IsBelow key unit vehicle bound d =
      has_ticket_of calendar key unit vehicle d ≡ true → ticket_of d < bound

  -- Each counter is ahead of the numbers of its queue.
  pub record IsAhead (db : Db) : Type 0 where
    pub ahead :
        (key unit : ℕ) (vehicle : VehicleType) (q : TicketSequence)
        → find_sequence key unit vehicle db ≡ some q
        → All (IsBelow key unit vehicle q.next_number) db.deliveries

  IsBelow-existing_max :
      (db : Db) (key unit : ℕ) (vehicle : VehicleType)
      → All
          (IsBelow key unit vehicle
            (get_existing_max_ticket_number calendar db key unit vehicle + 1))
          db.deliveries
  unfolding get_existing_max_ticket_number
  IsBelow-existing_max db key unit vehicle =
      let test = has_ticket_of calendar key unit vehicle in
      elim (Option-cases (first_by higher_ticket (select test db.deliveries))) [
        | inl e ↦
            All-map _ _ db.deliveries (λ d h t. cc (h, t))
              (select-nil test db.deliveries (first_by-none higher_ticket _ e))
        | inr (top, e) ↦
            let m : get_existing_max_ticket_number calendar db key unit vehicle ≡ ticket_of top =
              rw (e, get_existing_max_ticket_number) refl in
            All-map _ _ db.deliveries (λ d h t. let le = h t in ground (arith, m, le))
              (All-select (λ d. higher_ticket d top ≡ false) test db.deliveries
                (first_by_least higher_ticket (λ a b h. ground (arith, h))
                  (λ a b c h k. ground (arith, h, k)) _ top e))
      ]

-- One queue or another.
abbrev pub same_queue : ℕ → ℕ → VehicleType → ℕ → ℕ → VehicleType → Bool
same_queue key unit vehicle k u v = key == k && unit == u && vehicle === v

pub same_queue-IsQueue :
    (key unit : ℕ) (vehicle : VehicleType) (k u : ℕ) (v : VehicleType)
    → same_queue key unit vehicle k u v ≡ true
    → (key ≡ k) × (unit ≡ u) × (vehicle ≡ v)
same_queue-IsQueue key unit vehicle k u v h =
    (ground arith, ground arith, (vehicle_eq.eq_iff vehicle v).0 (ground arith))

module _ (key unit : ℕ) (vehicle : VehicleType) where
  find_sequence-increment :
      (xs : List TicketSequence) (q : TicketSequence)
      → find_by (is_sequence_of key unit vehicle) xs ≡ some q
      → find_by
          (is_sequence_of key unit vehicle)
          (update_by (is_sequence_of key unit vehicle) increment xs)
        ≡ some (increment q)
  unfolding find_by update_by is_sequence_of
  find_sequence-increment [] q h = cc
  find_sequence-increment (x ∷ xs) q h = elim (Bool-cases (is_sequence_of key unit vehicle x)) [
    | inl here ↦ let e : x ≡ q = ground (arith, here) in rw (here, here, e) refl
    | inr there ↦ rw (there, there) (find_sequence-increment xs q (rw there at h))
  ]

  find_sequence-other :
      (k u : ℕ) (v : VehicleType)
      → same_queue key unit vehicle k u v ≡ false
      → (xs : List TicketSequence)
      → find_by (is_sequence_of k u v) (update_by (is_sequence_of key unit vehicle) increment xs)
        ≡ find_by (is_sequence_of k u v) xs
  unfolding find_by update_by is_sequence_of
  find_sequence-other k u v ne [] = refl
  find_sequence-other k u v ne (x ∷ xs) = ground (arith, find_sequence-other k u v ne xs)

  find_sequence-new :
      (next : ℕ) (xs : List TicketSequence)
      → find_by (is_sequence_of key unit vehicle) (new_sequence key unit vehicle next ∷ xs)
        ≡ some (new_sequence key unit vehicle next)
  unfolding find_by is_sequence_of
  find_sequence-new next xs = rw (==_refl key, ==_refl unit, ==_refl (vehicle_code vehicle)) refl

  find_sequence-unrelated :
      (k u : ℕ) (v : VehicleType)
      → same_queue key unit vehicle k u v ≡ false
      → (next : ℕ) (xs : List TicketSequence)
      → find_by (is_sequence_of k u v) (new_sequence key unit vehicle next ∷ xs)
        ≡ find_by (is_sequence_of k u v) xs
  unfolding find_by is_sequence_of
  find_sequence-unrelated k u v ne next xs = ground arith

-- What a reservation leaves behind.
pub record IsReserved (calendar : Calendar) (db db' : Db) (key unit : ℕ) (vehicle : VehicleType)
    (n : ℕ) : Type 0 where
  pub counter : TicketSequence
  pub found : find_sequence key unit vehicle db' ≡ some counter
  pub counts : counter.next_number ≡ n + 1
  pub others :
      (k u : ℕ) (v : VehicleType)
      → same_queue key unit vehicle k u v ≡ false
      → find_sequence k u v db' ≡ find_sequence k u v db
  pub rest : db' ≡ record db { ticket_sequences = db'.ticket_sequences }
  pub highest : All (IsBelow calendar key unit vehicle n) db.deliveries

module _ (calendar : Calendar) (db : Db) (unit : ℕ) (vehicle : VehicleType) (now : ℕ) where
  -- While every counter is ahead of its queue, a reservation returns a number that is higher than
  -- every number of the queue of that unit, type of vehicle and day; it moves that queue's counter
  -- right behind the number, and changes nothing else.
  pub reserve_ticket_number-IsReserved :
      IsAhead calendar db
      → let (db', n) = reserve_ticket_number calendar db unit vehicle now in
        IsReserved calendar db db' (calendar.vn_date_key now) unit vehicle n
  unfolding reserve_ticket_number upsert_sequence
  reserve_ticket_number-IsReserved a =
      let key = calendar.vn_date_key now in
      let existing = get_existing_max_ticket_number calendar db key unit vehicle in
      elim (Option-cases (find_sequence key unit vehicle db)) [
        | inl e ↦
            rw (e, reserve_ticket_number, upsert_sequence)
              (record {
                counter = new_sequence key unit vehicle (existing + 2);
                found = find_sequence-new key unit vehicle (existing + 2) db.ticket_sequences;
                counts = omega arith;
                others = λ k u v ne.
                    find_sequence-unrelated key unit vehicle k u v ne (existing + 2)
                      db.ticket_sequences;
                rest = refl;
                highest =
                    All-map _ _ db.deliveries (λ d h t. let lt = h t in omega arith)
                      (IsBelow-existing_max calendar db key unit vehicle);
              })
        | inr (q, e) ↦
            rw (e, reserve_ticket_number, upsert_sequence)
              (record {
                counter = increment q;
                found = find_sequence-increment key unit vehicle db.ticket_sequences q e;
                counts = omega arith;
                others =
                    λ k u v ne. find_sequence-other key unit vehicle k u v ne db.ticket_sequences;
                rest = refl;
                highest =
                    All-map _ _ db.deliveries (λ d h t. let lt = h t in omega arith)
                      (a.ahead key unit vehicle q e);
              })
      ]
