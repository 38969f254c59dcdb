-- ===== src/Workflow/Moves/Calls.antt =====
-- What check-in, assignment and the start of a reception do to the status of every delivery.
use delivery_driver_manageme.Base.{
  ℕ, ◌==◌, ◌≡◌, refl, ap, sym, subst, ◌∙◌, Bool, true, false, not, ◌&&◌, ◌||◌, ◌===◌, bit, Option,
  none, some, inl, inr, arith, Bool-cases, Option-cases, key-find_row, update_row,
  update_row-Unique, is_truthy, Result, ok, thrown, failed, Result-cases, ok-injective, count_by,
  conflict, ◌>>=◌, Unique,
}
use delivery_driver_manageme.Schema.{
  Text, DeliveryStatus, waiting, called, status_eq, VehicleType, Delivery, Slot, Actor,
}
use delivery_driver_manageme.Store.{Db, delivery_id, find_delivery, find_slot, slot_id}
use delivery_driver_manageme.SlotState.{is_active_at}
use delivery_driver_manageme.SlotState.Laws.{reconcile_slot_state-update}
use delivery_driver_manageme.Consistency.{IsConsistent, same_slots-IsConsistent}
use delivery_driver_manageme.CloseDay.Laws.{IsSound}
use delivery_driver_manageme.Lifecycle.Laws.{occupancy-update}
use delivery_driver_manageme.AutoAssign.{
  mark_called, reconcile_previous, call_into, assign_chosen, assign_next_delivery_to_slot,
}
use delivery_driver_manageme.AutoAssign.Choice.{choose_delivery-IsNext}
use delivery_driver_manageme.AutoAssign.Effects.{
  deliveries-assign_chosen, assign_next_delivery_to_slot-cases, assign_next_delivery_to_slot_effect,
}
use delivery_driver_manageme.Tickets.{
  Calendar, reserve_ticket_number, upsert_sequence, find_sequence,
}
use delivery_driver_manageme.CheckIn.{
  CheckInResult, Classification, vendor_matches, resolve_check_in_goods_type, mark_checked_in,
  unit_changed, check_in_classified, not_checked_in, check_in_registered, check_in_delivery,
}
use delivery_driver_manageme.Reception.{receiving_status, mark_receiving, receive_called}
use delivery_driver_manageme.Reception.Laws.{receive_called-IsConsistent}
use delivery_driver_manageme.Workflow.{CanMove}
use delivery_driver_manageme.Workflow.Moves.{IsMove, nothing-IsMove, row-IsMove, own_row}

receiving_status-CanMove : (d : Delivery) → CanMove (some called) (some (receiving_status d))
receiving_status-CanMove d = elim (Bool-cases d.auto_warehouse) [
  | inl automatic ↦ rw automatic CanMove.is_received_automatically
  | inr manual ↦ rw manual CanMove.is_received
]

pub receive_called-IsMove :
    (actor : Actor) (now : ℕ) (d e : Delivery) (db : Db)
    → IsSound db
    → find_delivery d.id db ≡ some e
    → e.status ≡ called
    → IsMove db (receive_called db d e actor now)
unfolding receive_called
receive_called-IsMove actor now d e db sound found s =
    let own = key-find_row delivery_id d.id db.deliveries e found in
    row-IsMove db _ (mark_receiving (receiving_status d) now) e sound
      (receive_called-IsConsistent db d e actor now sound.consistent found s) refl (λ x. refl)
      (ap (λ k. update_row delivery_id k (mark_receiving (receiving_status d) now) db.deliveries)
        (sym own))
      (subst (λ k. find_delivery k db ≡ some e) (sym own) found)
      (subst (λ z. CanMove (some z) (some (receiving_status d))) (sym s)
        (receiving_status-CanMove d))

pub histories-reconcile_previous :
    (o : Option ℕ) (i : ℕ) (db : Db) → (reconcile_previous o i db).histories ≡ db.histories
unfolding reconcile_previous
histories-reconcile_previous none i db = refl
histories-reconcile_previous (some j) i db =
    elim (Bool-cases (is_truthy (some j) && not (j == i))) [
      | inl e ↦ rw (e, reconcile_slot_state-update db j true) refl
      | inr e ↦ rw e refl
    ]

histories-assign_chosen :
    (db : Db) (slot : Slot) (next : Delivery) (label now : ℕ)
    → (assign_chosen db slot next label now).0.histories ≡ db.histories
unfolding assign_chosen call_into
histories-assign_chosen db slot next label now =
    rw (reconcile_slot_state-update (call_into db slot next label now) slot.id true)
      (histories-reconcile_previous next.assigned_slot_id slot.id db)

module _ (locked : ℕ → Bool) (i unit label now : ℕ) (db : Db) (sound : IsSound db) where
  assigned-IsConsistent : IsConsistent (assign_next_delivery_to_slot locked db i unit label now).0
  assigned-IsConsistent =
      elim (assign_next_delivery_to_slot_effect locked db i unit label now sound.consistent) [
        | inl (_, same) ↦ subst IsConsistent (sym same) sound.consistent
        | inr (_, _, _, _, _, _, _, _, _, _, c) ↦ c
      ]

  pub assign_next_delivery_to_slot-IsMove :
      IsMove db (assign_next_delivery_to_slot locked db i unit label now).0
  assign_next_delivery_to_slot-IsMove =
      elim (assign_next_delivery_to_slot-cases locked db i unit label now) [
        | inl e ↦ nothing-IsMove db _ sound (ap (λ z. z.0) e)
        | inr (slot, next, at, chosen, e) ↦
            let (_, w, n) =
              choose_delivery-IsNext locked db slot unit next sound.consistent.keyed chosen in
            let own : find_slot slot.id db ≡ some slot =
              subst (λ k. find_slot k db ≡ some slot)
                (sym (key-find_row slot_id i db.slots slot at)) at in
            row-IsMove db _ (mark_called slot.id now) next sound assigned-IsConsistent
              (ap (λ z. z.0.histories) e ∙ histories-assign_chosen db slot next label now)
              (λ x. refl)
              (ap (λ z. z.0.deliveries) e
                ∙ deliveries-assign_chosen db slot next label now sound.consistent.keyed own
                    n.stored w)
              n.stored (subst (λ z. CanMove (some z) (some called)) (sym w) CanMove.is_called)
      ]

abbrev SameRest : Db → Db → Type 0
SameRest db db' =
    (db'.deliveries ≡ db.deliveries) × (db'.slots ≡ db.slots) × (db'.histories ≡ db.histories)

reserve_ticket_number-SameRest :
    (calendar : Calendar) (db : Db) (unit : ℕ) (vehicle : VehicleType) (now : ℕ)
    → SameRest db (reserve_ticket_number calendar db unit vehicle now).0
unfolding reserve_ticket_number upsert_sequence
reserve_ticket_number-SameRest calendar db unit vehicle now =
    elim (Option-cases (find_sequence (calendar.vn_date_key now) unit vehicle db)) [
      | inl e ↦ rw (e, reserve_ticket_number, upsert_sequence) (refl, refl, refl)
      | inr (q, e) ↦ rw (e, reserve_ticket_number, upsert_sequence) (refl, refl, refl)
    ]

inactive_of_registered :
    (j : ℕ) (d : Delivery) → d.status ≡ DeliveryStatus.registered → bit (is_active_at j d) ≡ 0
unfolding is_active_at
inactive_of_registered j d s = ground (arith, s)

inactive_of_waiting : (j : ℕ) (d : Delivery) → d.status ≡ waiting → bit (is_active_at j d) ≡ 0
unfolding is_active_at
inactive_of_waiting j d s = ground (arith, s)

module _ (calendar : Calendar) (db : Db) (d : Delivery) (actor : Actor) (now : ℕ)
    (c : Classification) (sound : IsSound db) (found : find_delivery d.id db ≡ some d)
    (s : d.status ≡ DeliveryStatus.registered) where
  abbrev after : Db
  after = (check_in_classified calendar db d actor now c).0

  abbrev mark : Delivery → Delivery
  mark =
      mark_checked_in now (reserve_ticket_number calendar db d.receiving_unit d.vehicle_type now).1
        c

  kept : SameRest db (reserve_ticket_number calendar db d.receiving_unit d.vehicle_type now).0
  kept = reserve_ticket_number-SameRest calendar db d.receiving_unit d.vehicle_type now

  rows : after.deliveries ≡ update_row delivery_id d.id mark db.deliveries
  unfolding check_in_classified
  rows = ap (update_row delivery_id d.id mark) kept.0

  slots-after : after.slots ≡ db.slots
  unfolding check_in_classified
  slots-after = kept.1

  histories-after : after.histories ≡ db.histories
  unfolding check_in_classified
  histories-after = kept.2

  after-IsConsistent : IsConsistent after
  after-IsConsistent =
      same_slots-IsConsistent db after slots-after
        (subst (Unique delivery_id) (sym rows) (
          update_row-Unique delivery_id mark (λ x. refl) d.id db.deliveries
            sound.consistent.keyed.deliveries_unique))
        (λ j.
          ap (count_by (is_active_at j)) rows
          ∙ omega (
            arith,
            occupancy-update db d.id j mark d sound.consistent.keyed found,
            inactive_of_registered j d s,
            inactive_of_waiting j (mark d) refl,
          ))
        sound.consistent

  check_in_classified-IsMove : IsMove db after
  check_in_classified-IsMove =
      row-IsMove db after mark d sound after-IsConsistent histories-after (λ x. refl) rows found
        (subst (λ z. CanMove (some z) (some waiting)) (sym s) CanMove.arrives)

module _ (calendar : Calendar) (upper : ℕ → Text) (actor : Actor) (now : ℕ) (db : Db)
    (sound : IsSound db) (db' : Db) (r : CheckInResult) where
  check_in_registered-IsMove :
      (d : Delivery)
      → find_delivery d.id db ≡ some d
      → d.status ≡ DeliveryStatus.registered
      → check_in_registered calendar upper db d actor now ≡ ok (db', r)
      → IsMove db db'
  unfolding check_in_registered
  check_in_registered-IsMove d found s h =
      let classified =
        resolve_check_in_goods_type d.goods_type d.original_goods_type
          (vendor_matches upper db d) in
      let next : Classification → Result (Db × CheckInResult) =
        λ c. ok (check_in_classified calendar db d actor now c) in
      elim (Result-cases classified) [
        | inl (c, e) ↦
            let h' : ok (check_in_classified calendar db d actor now c) ≡ ok (db', r) =
              sym (ap (λ z. z >>= next) e) ∙ h in
            let same = ok-injective (check_in_classified calendar db d actor now c) (db', r) h' in
            subst (IsMove db) (ap (λ z. z.0) same)
              (check_in_classified-IsMove calendar db d actor now c sound found s)
        | inr (inl (kind, e)) ↦
            let h' : thrown kind ≡ ok (db', r) = sym (ap (λ z. z >>= next) e) ∙ h in cc
        | inr (inr e) ↦ let h' : failed ≡ ok (db', r) = sym (ap (λ z. z >>= next) e) ∙ h in cc
      ]

  not_checked_in-IsMove : (d : Option Delivery) → not_checked_in db d ≡ ok (db', r) → IsMove db db'
  not_checked_in-IsMove d h = nothing-IsMove db db' sound (
      sym
        (ap (λ z. z.0) (ok-injective (db, record { checked_in = false; delivery = d }) (db', r) h)))

  pub check_in_delivery-IsMove :
      (i : ℕ) (expected : Option (Option ℕ))
      → check_in_delivery calendar upper db i expected actor now ≡ ok (db', r)
      → IsMove db db'
  unfolding check_in_delivery
  check_in_delivery-IsMove i expected h = elim (Option-cases (find_delivery i db)) [
    | inl gone ↦ not_checked_in-IsMove none (sym (rw (gone, check_in_delivery) refl) ∙ h)
    | inr (d, found) ↦ elim (Bool-cases (unit_changed expected d)) [
      | inl changed ↦
          let refused : check_in_delivery calendar upper db i expected actor now ≡ thrown conflict =
            rw (found, check_in_delivery) (rw changed refl) in
          cc (h, refused)
      | inr same ↦
          elim (Bool-cases (d.status === waiting || not (d.status === DeliveryStatus.registered))) [
            | inl other ↦
                let e : check_in_delivery calendar upper db i expected actor now
                    ≡ not_checked_in db (some d) =
                  rw (found, check_in_delivery) (rw (same, other) refl) in
                not_checked_in-IsMove (some d) (sym e ∙ h)
            | inr registered ↦
                let e : check_in_delivery calendar upper db i expected actor now
                    ≡ check_in_registered calendar upper db d actor now =
                  rw (found, check_in_delivery) (rw (same, registered) refl) in
                check_in_registered-IsMove d (own_row db i d found)
                  ((status_eq.eq_iff d.status DeliveryStatus.registered).0
                    (ground (arith, registered)))
                  (sym e ∙ h)
          ]
    ]
  ]
