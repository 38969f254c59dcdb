-- ===== src/Reception/Laws.antt =====
-- Starting to receive a delivery.
use delivery_driver_manageme.Base.{
  ℕ, ◌+◌, ◌≡◌, ◌≢◌, ◌⊎◌, inl, inr, refl, ap, ◌∙◌, bit, true, false, Bool-cases, ◌===◌, Option, none,
  some, List, arith, update_row, update_row-Unique, find_row, find_row-update_row_self,
  find_row-update_row_ne, ok, thrown, Result, failed, bad_request, ==_iff, Option-cases, ◌==◌,
}
use delivery_driver_manageme.Schema.{
  called, receiving, auto_warehouse_receiving, DeliveryStatus, status_eq, Delivery, Actor,
}
use delivery_driver_manageme.Store.{Db, delivery_id, find_delivery}
use delivery_driver_manageme.SlotState.{is_active_at, occupancy}
use delivery_driver_manageme.Consistency.{IsConsistent, same_slots-IsConsistent}
use delivery_driver_manageme.Lifecycle.Laws.{occupancy-update}
use delivery_driver_manageme.Permissions.{PermissionProfile}
use delivery_driver_manageme.Reception.{
  GrantedUnit, ensure_delivery_access, receiving_status, mark_receiving, receive_called,
  receive_read, start_receiving,
}

same_place :
    (j now : ℕ) (d e : Delivery)
    → e.status ≡ called
    → bit (is_active_at j (mark_receiving (receiving_status d) now e)) ≡ bit (is_active_at j e)
unfolding is_active_at
same_place j now d e s = ground (arith, s)

module _ (db : Db) (d e : Delivery) (actor : Actor) (now : ℕ) where
  abbrev received : Db
  received = receive_called db d e actor now

  deliveries-receive_called :
      received.deliveries
      ≡ update_row delivery_id d.id (mark_receiving (receiving_status d) now) db.deliveries
  unfolding receive_called
  deliveries-receive_called = refl

  -- The row that is stored by then is written, and no other.
  find_delivery-receive_called :
      find_delivery d.id db ≡ some e
      → find_delivery d.id received ≡ some (mark_receiving (receiving_status d) now e)
  find_delivery-receive_called h =
      ap (find_row delivery_id d.id) deliveries-receive_called
      ∙ find_row-update_row_self delivery_id (mark_receiving (receiving_status d) now) (λ x. refl)
          d.id db.deliveries e h

  others-receive_called : (j : ℕ) → (d.id ≡ j) ⊎ (find_delivery j received ≡ find_delivery j db)
  others-receive_called j = elim (Bool-cases (d.id == j)) [
    | inl own ↦ inl ((==_iff d.id j).0 own)
    | inr other ↦ inr (
        ap (find_row delivery_id j) deliveries-receive_called
        ∙ find_row-update_row_ne delivery_id (mark_receiving (receiving_status d) now) (λ x. refl)
            d.id j db.deliveries other)
  ]

  module _ (c : IsConsistent db) (h : find_delivery d.id db ≡ some e) (s : e.status ≡ called) where
    occupancy-receive_called : (j : ℕ) → occupancy j received ≡ occupancy j db
    unfolding receive_called
    occupancy-receive_called j = omega (
      arith,
      occupancy-update db d.id j (mark_receiving (receiving_status d) now) e c.keyed h,
      same_place j now d e s,
    )

    pub receive_called-IsConsistent : IsConsistent received
    unfolding receive_called
    receive_called-IsConsistent =
        same_slots-IsConsistent db _ refl
          (update_row-Unique delivery_id (mark_receiving (receiving_status d) now) (λ x. refl) d.id
            db.deliveries c.keyed.deliveries_unique)
          occupancy-receive_called c

called_still :
    (db : Db) (d e : Delivery) (actor : Actor) (now : ℕ)
    → IsConsistent db
    → find_delivery d.id db ≡ some e
    → (e.status ≢ called) ⊎ IsConsistent (receive_called db d e actor now)
called_still db d e actor now c h = elim (Bool-cases (e.status === called)) [
  | inl y ↦
      inr
        (receive_called-IsConsistent db d e actor now c h ((status_eq.eq_iff e.status called).0 y))
  | inr n ↦ inl (λ s. cc (n, (status_eq.eq_iff e.status called).1 s))
]

-- The status of a reception: by the kind of the goods.
abbrev pub IsReceptionOf : Delivery → DeliveryStatus → Type 0
IsReceptionOf d s =
    ((d.auto_warehouse ≡ true) × (s ≡ auto_warehouse_receiving))
    ⊎ ((d.auto_warehouse ≡ false) × (s ≡ receiving))

receiving_status-IsReceptionOf : (d : Delivery) → IsReceptionOf d (receiving_status d)
receiving_status-IsReceptionOf d = elim (Bool-cases d.auto_warehouse) [
  | inl e ↦ inl (e, rw e refl)
  | inr e ↦ inr (e, rw e refl)
]

module _ (granted : List GrantedUnit) (others : Db → Db) (db : Db) (user : Option PermissionProfile)
    (actor : Actor) (now : ℕ) (d : Delivery) (found : find_delivery d.id db ≡ some d)
    (access : ensure_delivery_access granted user db d ≡ ok tt)
    (consistent : IsConsistent (others db)) where
  abbrev started : Result (Db × Delivery)
  started = start_receiving granted others db d.id user actor now

  started-called : d.status ≡ called → started ≡ receive_read (others db) d actor now
  unfolding start_receiving
  started-called s =
      rw (found, start_receiving) (rw access (rw ((status_eq.eq_iff d.status called).1 s) refl))

  started-refused : (d.status === called) ≡ false → started ≡ thrown bad_request
  unfolding start_receiving
  started-refused n = rw (found, start_receiving) (rw access (rw n refl))

  -- If what other transactions write meanwhile leaves a consistent yard, a user with access to a stored
  -- delivery is refused unless it is called; else the write fails if the delivery is gone by then, and
  -- otherwise stores and answers the row of that moment, in whatever status, as being received by the kind
  -- of goods that was read, and leaves every other row. A slot's occupancy changes by what that row took
  -- and takes there, and the yard stays consistent if the row was still called.
  pub start_receiving_effect :
      ((d.status ≢ called) × (started ≡ thrown bad_request))
      ⊎ ((d.status ≡ called) × (find_delivery d.id (others db) ≡ none) × (started ≡ failed))
      ⊎ ((d.status ≡ called)
          × ((e : Delivery) × (find_delivery d.id (others db) ≡ some e)
              × ((db' : Db) × (u : Delivery) × (started ≡ ok (db', u))
                  × (find_delivery d.id db' ≡ some u)
                  × IsReceptionOf d u.status
                  × (u.receiving_start_time ≡ some now)
                  × (u.assigned_slot_id ≡ e.assigned_slot_id)
                  × ((j : ℕ) → (d.id ≡ j) ⊎ (find_delivery j db' ≡ find_delivery j (others db)))
                  × ((j : ℕ)
                      → occupancy j db' + bit (is_active_at j e)
                        ≡ occupancy j (others db) + bit (is_active_at j u))
                  × ((e.status ≢ called) ⊎ IsConsistent db'))))
  unfolding receive_read receive_called
  start_receiving_effect = elim (Bool-cases (d.status === called)) [
    | inr n ↦ inl ((λ s. cc (n, (status_eq.eq_iff d.status called).1 s)), started-refused n)
    | inl y ↦
        let s = (status_eq.eq_iff d.status called).0 y in
        inr (elim (Option-cases (find_delivery d.id (others db))) [
          | inl gone ↦ inl (s, gone, started-called s ∙ rw (gone, receive_read) refl)
          | inr (e, there) ↦ inr (
            s,
            (
              e,
              there,
              (
                receive_called (others db) d e actor now,
                mark_receiving (receiving_status d) now e,
                started-called s ∙ rw (there, receive_read) refl,
                find_delivery-receive_called (others db) d e actor now there,
                receiving_status-IsReceptionOf d,
                refl,
                refl,
                others-receive_called (others db) d e actor now,
                (λ j.
                    occupancy-update (others db) d.id j (mark_receiving (receiving_status d) now) e
                      consistent.keyed there),
                called_still (others db) d e actor now consistent there,
              ),
            ),
          )
        ])
  ]
