-- ===== src/CheckIn/Queue.antt =====
-- What a check-in writes: a ticket that no other delivery of its queue has.
use delivery_driver_manageme.Base.{
  ℕ, ◌+◌, ◌≤◌, ◌==◌, ◌≡◌, refl, sym, ap, subst, ◌∙◌, inl, inr, Bool, true, false, ◌&&◌, ◌||◌,
  Option, none, some, arith, Option-cases, Bool-cases, same, ok, ◌===◌, bit, update_row, All,
  All-both, All-update_row, All-same_row, update_row-Unique, find_row-update_row_self, count_by,
  key-find_row, List, is_some,
}
use delivery_driver_manageme.Schema.{
  DeliveryStatus, waiting, status_eq, goods_eq, VehicleType, vehicle_eq, Text, Delivery, Actor,
  TicketSequence,
}
use delivery_driver_manageme.Store.{Db, find_delivery, delivery_id}
use delivery_driver_manageme.SlotState.{is_active_at, occupancy}
use delivery_driver_manageme.Consistency.{IsConsistent, same_slots-IsConsistent}
use delivery_driver_manageme.Lifecycle.Laws.{occupancy-update}
use delivery_driver_manageme.Tickets.{
  Calendar, IsCalendar, has_ticket_of, ticket_of, find_sequence, reserve_ticket_number,
}
use delivery_driver_manageme.Tickets.Fresh.{
  IsAhead, IsBelow, IsReserved, same_queue, same_queue-IsQueue, reserve_ticket_number-IsReserved,
}
use delivery_driver_manageme.CheckIn.{
  Classification, resolve_check_in_goods_type, vendor_matches, mark_checked_in, check_in_classified,
  check_in_delivery, unit_changed,
}
use delivery_driver_manageme.CheckIn.Laws.{check_in_delivery-registered, check_in_registered-ok}

-- The number that a check-in of `d` at `now` reserves.
abbrev pub next_ticket : Calendar → Db → Delivery → ℕ → ℕ
next_ticket calendar db d now =
    (reserve_ticket_number calendar db d.receiving_unit d.vehicle_type now).1

abbrev same_day : Calendar → Option ℕ → Option ℕ → Bool
same_day calendar none b = false
same_day calendar (some s) none = false
same_day calendar (some s) (some t) = calendar.vn_date_key s == calendar.vn_date_key t

-- Two rows with one ticket: the same unit, type of vehicle, day and number.
unfoldable pub same_ticket : Calendar → Delivery → Delivery → Bool
same_ticket calendar a b =
    a.receiving_unit == b.receiving_unit
    && a.vehicle_type === b.vehicle_type
    && same_day calendar a.checkin_time b.checkin_time
    && is_some a.ticket_number
    && same a.ticket_number b.ticket_number

-- No ticket is given out twice.
abbrev pub HasDistinctTickets : Calendar → List Delivery → Type 0
HasDistinctTickets calendar ds =
    All (λ a. All (λ b. same_ticket calendar a b ≡ true → a.id ≡ b.id) ds) ds

inactive_of_registered :
    (j : ℕ) (d : Delivery) → d.status ≡ DeliveryStatus.registered → bit (is_active_at j d) ≡ 0
unfolding is_active_at
inactive_of_registered j d s = ground (arith, s)

inactive_of_waiting : (j : ℕ) (d : Delivery) → d.status ≡ waiting → bit (is_active_at j d) ≡ 0
unfolding is_active_at
inactive_of_waiting j d s = ground (arith, s)

module _ (calendar : Calendar) (law : IsCalendar calendar) (db : Db) (d : Delivery) (actor : Actor)
    (now : ℕ) (c : Classification) (a : IsAhead calendar db) (y : IsConsistent db)
    (h : find_delivery d.id db ≡ some d) (s : d.status ≡ DeliveryStatus.registered) where
  abbrev key : ℕ
  key = calendar.vn_date_key now

  abbrev ticket : ℕ
  ticket = next_ticket calendar db d now

  abbrev f : Delivery → Delivery
  f = mark_checked_in now ticket c

  abbrev after : Db
  after = (check_in_classified calendar db d actor now c).0

  reserved :
      IsReserved calendar db
        (reserve_ticket_number calendar db d.receiving_unit d.vehicle_type now).0
        key
        d.receiving_unit
        d.vehicle_type
        ticket
  reserved = reserve_ticket_number-IsReserved calendar db d.receiving_unit d.vehicle_type now a

  deliveries-check_in : after.deliveries ≡ update_row delivery_id d.id f db.deliveries
  unfolding check_in_classified
  deliveries-check_in = ap (λ (x : Db). update_row delivery_id d.id f x.deliveries) reserved.rest

  sequences-check_in :
      after.ticket_sequences
      ≡ (reserve_ticket_number calendar db d.receiving_unit d.vehicle_type now).0.ticket_sequences
  unfolding check_in_classified
  sequences-check_in = refl

  below :
      All
        (λ x. IsBelow calendar key d.receiving_unit d.vehicle_type ticket x × (x.id ≡ d.id → x ≡ d))
        db.deliveries
  below =
      All-both _ _ _ db.deliveries (λ x b e. (b, e)) reserved.highest
        (All-same_row delivery_id d.id db.deliveries d y.keyed.deliveries_unique h)

  -- Only the queue that the check-in joins gets a number.
  elsewhere :
      (k u : ℕ) (v : VehicleType)
      → same_queue key d.receiving_unit d.vehicle_type k u v ≡ false
      → has_ticket_of calendar k u v (f d) ≡ false
  unfolding has_ticket_of
  elsewhere k u v ne = let e = law.same_day k now in ground (arith, e, ne)

  -- After the check-in a row is still below a bound that held before, if the new ticket is.
  IsBelow-after :
      (k u : ℕ) (v : VehicleType) (old new : ℕ)
      → old ≤ new
      → ((x : Delivery) → x ≡ d → IsBelow calendar k u v new (f x))
      → All (IsBelow calendar k u v old) db.deliveries
      → All (IsBelow calendar k u v new) after.deliveries
  IsBelow-after k u v old new le at_d b = rw deliveries-check_in (
      All-update_row delivery_id (λ x. IsBelow calendar k u v old x × (x.id ≡ d.id → x ≡ d))
        (IsBelow calendar k u v new) d.id f (λ x e p. at_d x (p.1 e))
        (λ x _ p t. let lt = p.0 t in omega (arith, le, lt)) db.deliveries
        (All-both _ _ _ db.deliveries (λ x p e. (p, e)) b
          (All-same_row delivery_id d.id db.deliveries d y.keyed.deliveries_unique h)))

  abbrev AheadAt : ℕ → ℕ → VehicleType → Type 0
  AheadAt k u v =
      (q : TicketSequence)
      → find_sequence k u v after ≡ some q
      → All (IsBelow calendar k u v q.next_number) after.deliveries

  ahead_there : AheadAt key d.receiving_unit d.vehicle_type
  unfolding check_in_classified
  ahead_there q e =
      let same_counter : reserved.counter ≡ q = cc (reserved.found, e) in
      let next : q.next_number ≡ ticket + 1 =
        subst (λ z. z.next_number ≡ ticket + 1) same_counter reserved.counts in
      IsBelow-after key d.receiving_unit d.vehicle_type ticket q.next_number (omega (arith, next))
        (λ x _ _. omega (arith, next)) reserved.highest

  ahead_elsewhere :
      (k u : ℕ) (v : VehicleType)
      → same_queue key d.receiving_unit d.vehicle_type k u v ≡ false
      → AheadAt k u v
  unfolding check_in_classified
  ahead_elsewhere k u v ne q e =
      IsBelow-after k u v q.next_number q.next_number (omega arith)
        (λ x e' t.
          cc (elsewhere k u v ne, subst (λ z. has_ticket_of calendar k u v (f z) ≡ true) e' t))
        (a.ahead k u v q (sym (reserved.others k u v ne) ∙ e))

  check_in-IsAhead : IsAhead calendar after
  check_in-IsAhead = record {
    ahead = λ k u v q e. elim (Bool-cases (same_queue key d.receiving_unit d.vehicle_type k u v)) [
      | inl here ↦
          let (ek, eu, ev) = same_queue-IsQueue key d.receiving_unit d.vehicle_type k u v here in
          subst (λ k'. AheadAt k' u v) ek
            (subst (λ u'. AheadAt key u' v) eu
              (subst (λ v'. AheadAt key d.receiving_unit v') ev ahead_there))
            q e
      | inr there ↦ ahead_elsewhere k u v there q e
    ];
  }

  -- A row with the new ticket would be a row of the queue with that number.
  joins :
      (x : Delivery)
      → (same_ticket calendar (f d) x || same_ticket calendar x (f d)) ≡ true
      → (has_ticket_of calendar key d.receiving_unit d.vehicle_type x ≡ true)
        × (ticket_of x ≡ ticket)
  unfolding same_ticket has_ticket_of
  joins x t = elim (Option-cases x.checkin_time) [
    | inl e ↦ let t' = rw e at t in (ground (arith, t'), ground (arith, t'))
    | inr (time, e) ↦
        let day = law.same_day key time in
        let t' = rw e at t in (rw e (ground (arith, day, t')), ground (arith, t'))
  ]

  -- The new ticket clashes with no ticket that was there.
  new_ticket :
      (x : Delivery)
      → IsBelow calendar key d.receiving_unit d.vehicle_type ticket x
      → (same_ticket calendar (f d) x || same_ticket calendar x (f d)) ≡ false
  new_ticket x b =
      elim (Bool-cases (same_ticket calendar (f d) x || same_ticket calendar x (f d))) [
        | inl t ↦ let (q, e) = joins x t in let lt = b q in absurd (omega (arith, lt, e))
        | inr n ↦ n
      ]

  occupancy-check_in : (j : ℕ) → count_by (is_active_at j) after.deliveries ≡ occupancy j db
  occupancy-check_in j = rw deliveries-check_in (
      omega (
        arith,
        occupancy-update db d.id j f d y.keyed h,
        inactive_of_registered j d s,
        inactive_of_waiting j (f d) refl,
      ))

  check_in-IsConsistent : IsConsistent after
  unfolding check_in_classified
  check_in-IsConsistent =
      same_slots-IsConsistent db after (ap (λ (x : Db). x.slots) reserved.rest)
        (rw deliveries-check_in (
          update_row-Unique delivery_id f (λ x. refl) d.id db.deliveries y.keyed.deliveries_unique))
        occupancy-check_in y

  abbrev Clash : Delivery → Delivery → Type 0
  Clash x z = same_ticket calendar x z ≡ true → x.id ≡ z.id

  abbrev Known : Delivery → Type 0
  Known x = IsBelow calendar key d.receiving_unit d.vehicle_type ticket x × (x.id ≡ d.id → x ≡ d)

  Clash-new_left : (x : Delivery) → Known x → Clash (f d) x
  Clash-new_left x k t =
      let n = new_ticket x k.0 in let bad : true ≡ false = ground (arith, n, t) in cc bad

  Clash-new_right : (x : Delivery) → Known x → Clash x (f d)
  Clash-new_right x k t =
      let n = new_ticket x k.0 in let bad : true ≡ false = ground (arith, n, t) in cc bad

  Clash-update_row :
      (x : Delivery)
      → Known x
      → (x.id == d.id) ≡ false
      → All (Clash x) db.deliveries
      → All (Clash x) (update_row delivery_id d.id f db.deliveries)
  Clash-update_row x k ne h' =
      All-update_row delivery_id (λ z. Clash x z × Known z) (Clash x) d.id f
        (λ z e p. subst (λ w. Clash x (f w)) (sym (p.1.1 e)) (Clash-new_right x k)) (λ z _ p. p.0)
        db.deliveries (All-both _ _ _ db.deliveries (λ z p q. (p, q)) h' below)

  Clash-new_row : All (Clash (f d)) (update_row delivery_id d.id f db.deliveries)
  Clash-new_row =
      All-update_row delivery_id Known (Clash (f d)) d.id f (λ z e p _. sym e)
        (λ z _ p. Clash-new_left z p) db.deliveries below

  distinct-check_in :
      HasDistinctTickets calendar db.deliveries → HasDistinctTickets calendar after.deliveries
  distinct-check_in t = rw deliveries-check_in (
      All-update_row delivery_id (λ x. All (Clash x) db.deliveries × Known x)
        (λ x. All (Clash x) (update_row delivery_id d.id f db.deliveries)) d.id f
        (λ x e p.
          subst (λ w. All (Clash (f w)) (update_row delivery_id d.id f db.deliveries))
            (sym (p.1.1 e)) Clash-new_row)
        (λ x ne p. Clash-update_row x p.1 ne p.0) db.deliveries
        (All-both _ _ _ db.deliveries (λ x p q. (p, q)) t below))

-- Checking in a stored, registered delivery of the expected unit whose goods can be classified: the
-- delivery is stored as waiting with its class of goods and a ticket that is higher than every other
-- of its queue; tickets stay distinct, every counter stays ahead of its queue, the yard stays
-- consistent, and no occupancy changes.
pub check_in_delivery_effect :
    (calendar : Calendar) (upper : ℕ → Text) (db : Db) (i : ℕ) (expected : Option (Option ℕ))
    (actor : Actor) (now : ℕ) (d : Delivery) (c : Classification)
    → IsCalendar calendar
    → IsAhead calendar db
    → HasDistinctTickets calendar db.deliveries
    → IsConsistent db
    → find_delivery i db ≡ some d
    → unit_changed expected d ≡ false
    → d.status ≡ DeliveryStatus.registered
    → resolve_check_in_goods_type d.goods_type d.original_goods_type (vendor_matches upper db d)
      ≡ ok c
    → (db' : Db) × (n : ℕ) × (check_in_delivery calendar upper db i expected actor now
        ≡ ok (db', record { checked_in = true; delivery = some (mark_checked_in now n c d) }))
      × (find_delivery i db' ≡ some (mark_checked_in now n c d))
      × All
          (IsBelow calendar (calendar.vn_date_key now) d.receiving_unit d.vehicle_type n)
          db.deliveries
      × HasDistinctTickets calendar db'.deliveries
      × IsAhead calendar db'
      × IsConsistent db'
      × ((j : ℕ) → occupancy j db' ≡ occupancy j db)
unfolding check_in_classified
check_in_delivery_effect calendar upper db i expected actor now d c law a t y h u s r =
    let own : d.id ≡ i = key-find_row delivery_id i db.deliveries d h in
    let h' = rw (sym own) at h in
    (
      (check_in_classified calendar db d actor now c).0,
      next_ticket calendar db d now,
      check_in_delivery-registered calendar upper db i expected actor now d h u s
          ∙ check_in_registered-ok calendar upper db i expected actor now d h c r,
      rw (deliveries-check_in calendar law db d actor now c a y h' s) (
          rw (sym own) (
            find_row-update_row_self delivery_id
              (mark_checked_in now (next_ticket calendar db d now) c) (λ x. refl) d.id db.deliveries
              d h')),
      (reserved calendar law db d actor now c a y h' s).highest,
      distinct-check_in calendar law db d actor now c a y h' s t,
      check_in-IsAhead calendar law db d actor now c a y h' s,
      check_in-IsConsistent calendar law db d actor now c a y h' s,
      occupancy-check_in calendar law db d actor now c a y h' s,
    )
