-- ===== src/ManualCall/Laws.antt =====
-- The branches of a call by hand, and what the call writes.
use delivery_driver_manageme.Base.{
  ℕ, ◌<◌, ◌==◌, ◌≡◌, refl, ap, ◌∙◌, ◌⊎◌, inl, inr, ltb, leb, Bool, true, false, not, ◌&&◌, ◌||◌,
  some, arith, Bool-cases, is_truthy, same, same_iff, includes, ◌===◌, count_by-except, &&_true,
  update_row, if◌then◌else◌,
}
use delivery_driver_manageme.Schema.{DeliveryStatus, waiting, status_eq, Slot, Delivery, Actor}
use delivery_driver_manageme.Store.{Db, delivery_id, find_delivery, find_slot, slot_location_id}
use delivery_driver_manageme.SlotState.{is_active_at, occupancy, is_manual_slot_status}
use delivery_driver_manageme.SlotState.Laws.{reconcile_slot_state-update}
use delivery_driver_manageme.Consistency.{IsConsistent, same_slots-IsConsistent}
use delivery_driver_manageme.Consistency.Enter.{
  HasRoom-found, mark_used-IsConsistent, enter-IsConsistent,
}
use delivery_driver_manageme.AutoAssign.{mark_called, reconcile_previous}
use delivery_driver_manageme.AutoAssign.Effects.{
  quiet_of_waiting, target_of_called, reconcile_previous-IsConsistent, reconcile_previous-HasRoom,
  deliveries-reconcile_previous,
}
use delivery_driver_manageme.ManualCall.{
  is_success, ManualCallResult, callable_statuses, get_delivery_home_location_id, active_in_target,
  recall_delivery, call_into_slot, call_with_slot, call_failure, slot_full,
}

-- What a call into the slot has passed.
pub record IsCallable (db : Db) (d : Delivery) (slot : Slot) : Type 0 where
  pub active : slot.is_active ≡ true
  pub not_manual : is_manual_slot_status slot.status ≡ false
  pub same_location : slot_location_id slot db ≡ get_delivery_home_location_id db d
  pub own_unit_or_empty : (slot.assigned_unit ≡ d.receiving_unit) ⊎ (active_in_target db slot d ≡ 0)

-- The branches of `call_with_slot`.
abbrev pub CallCases : Db → Delivery → Slot → Actor → ℕ → Db × ManualCallResult → Type 0
CallCases db d slot actor now r =
    ((r.0 ≡ db) × (is_success r.1.outcome ≡ false))
    ⊎ (IsCallable db d slot
        × (d.status ≡ DeliveryStatus.called)
        × (d.assigned_slot_id ≡ some slot.id)
        × (r ≡ recall_delivery db d slot actor now))
    ⊎ (IsCallable db d slot
        × (active_in_target db slot d < slot.max_capacity)
        × ((d.status === DeliveryStatus.called && same d.assigned_slot_id (some slot.id)) ≡ false)
        × (r ≡ call_into_slot db d slot actor now))

pub waiting_of_callable :
    (d : Delivery)
    → includes callable_statuses d.status ≡ true
    → (d.status === DeliveryStatus.called) ≡ false
    → d.status ≡ waiting
waiting_of_callable d h n = (status_eq.eq_iff d.status waiting).0 (ground (arith, h, n))

module _ (db : Db) (d : Delivery) (slot : Slot) (actor : Actor) (now : ℕ) where
  abbrev closed : Bool
  closed = not slot.is_active || is_manual_slot_status slot.status

  abbrev elsewhere : Bool
  elsewhere =
      not (is_truthy (get_delivery_home_location_id db d))
      || not (same (slot_location_id slot db) (get_delivery_home_location_id db d))

  abbrev taken_by_others : Bool
  taken_by_others =
      not (slot.assigned_unit == d.receiving_unit) && ltb 0 (active_in_target db slot d)

  passed-IsCallable :
      closed ≡ false → elsewhere ≡ false → taken_by_others ≡ false → IsCallable db d slot
  passed-IsCallable c e t = record {
    active = ground (arith, c);
    not_manual = ground (arith, c);
    same_location = (same_iff _ _).0 (ground (arith, e));
    own_unit_or_empty = ground (arith, t);
  }

  abbrev last_test : Db × ManualCallResult
  last_test =
      if d.status === DeliveryStatus.called && same d.assigned_slot_id (some slot.id)
      then recall_delivery db d slot actor now
      else if leb slot.max_capacity (active_in_target db slot d)
      then (db, call_failure slot_full (some d) (some slot))
      else call_into_slot db d slot actor now

  call_with_slot-passed :
      closed ≡ false
      → elsewhere ≡ false
      → taken_by_others ≡ false
      → call_with_slot db d slot actor now ≡ last_test
  unfolding call_with_slot
  call_with_slot-passed c e t = rw (c, call_with_slot) (rw (e, t) refl)

  passed-CallCases :
      IsCallable db d slot
      → call_with_slot db d slot actor now ≡ last_test
      → CallCases db d slot actor now (call_with_slot db d slot actor now)
  passed-CallCases k p =
      elim (Bool-cases
        (d.status === DeliveryStatus.called && same d.assigned_slot_id (some slot.id))) [
          | inl again ↦
              let (s, a) = &&_true _ _ again in
              inr (inl (k, (status_eq.eq_iff _ _).0 s, (same_iff _ _).0 a, p ∙ (rw again refl)))
          | inr fresh ↦ elim (Bool-cases (leb slot.max_capacity (active_in_target db slot d))) [
            | inl full ↦
                let l : last_test ≡ (db, call_failure slot_full (some d) (some slot)) =
                  rw (fresh, full) refl in
                inl (ap (λ x. x.0) (p ∙ l), ap (λ x. is_success x.1.outcome) (p ∙ l))
            | inr room ↦ inr (inr (k, ground (arith, room), fresh, p ∙ (rw (fresh, room) refl)))
          ]
        ]

  pub call_with_slot-cases : CallCases db d slot actor now (call_with_slot db d slot actor now)
  unfolding call_with_slot
  call_with_slot-cases = elim (Bool-cases closed) [
    | inl c ↦ inl (rw (c, call_with_slot) refl, rw (c, call_with_slot) refl)
    | inr c ↦ elim (Bool-cases elsewhere) [
      | inl e ↦ inl (rw (c, call_with_slot) (rw e refl), rw (c, call_with_slot) (rw e refl))
      | inr e ↦ elim (Bool-cases taken_by_others) [
        | inl t ↦
            inl (rw (c, call_with_slot) (rw (e, t) refl), rw (c, call_with_slot) (rw (e, t) refl))
        | inr t ↦ passed-CallCases (passed-IsCallable c e t) (call_with_slot-passed c e t)
      ]
    ]
  ]

  pub deliveries-call_into_slot :
      (call_into_slot db d slot actor now).0.deliveries
      ≡ update_row delivery_id d.id (mark_called slot.id now) db.deliveries
  unfolding call_into_slot
  deliveries-call_into_slot = rw (reconcile_slot_state-update _ slot.id true) (
      ap (update_row delivery_id d.id (mark_called slot.id now))
        (deliveries-reconcile_previous d.assigned_slot_id slot.id db))

  module _ (c : IsConsistent db) (h : find_delivery d.id db ≡ some d)
      (at : find_slot slot.id db ≡ some slot) where
    -- A waiting delivery is active nowhere, so leaving it out of the count changes nothing.
    occupancy_of_waiting : d.status ≡ waiting → occupancy slot.id db ≡ active_in_target db slot d
    unfolding active_in_target
    occupancy_of_waiting w = omega (
      arith,
      count_by-except delivery_id (is_active_at slot.id) d.id db.deliveries d
          c.keyed.deliveries_unique h,
      quiet_of_waiting d w slot.id,
    )

    call_into_slot-IsConsistent :
        d.status ≡ waiting
        → active_in_target db slot d < slot.max_capacity
        → IsConsistent (call_into_slot db d slot actor now).0
    unfolding call_into_slot
    call_into_slot-IsConsistent w room =
        enter-IsConsistent (reconcile_previous d.assigned_slot_id slot.id db)
          (mark_called slot.id now) _ d slot.id now (λ x. refl) (quiet_of_waiting d w)
          (target_of_called slot.id now d)
          (reconcile_previous-IsConsistent d.assigned_slot_id slot.id db c)
          (rw (deliveries-reconcile_previous d.assigned_slot_id slot.id db) h)
          (reconcile_previous-HasRoom d.assigned_slot_id slot.id db (
            HasRoom-found db slot.id slot c.keyed at (omega (arith, occupancy_of_waiting w, room))))

    recall_delivery-IsConsistent : IsConsistent (recall_delivery db d slot actor now).0
    unfolding recall_delivery
    recall_delivery-IsConsistent =
        mark_used-IsConsistent _ slot.id now
          (same_slots-IsConsistent db _ refl c.keyed.deliveries_unique (λ j. refl) c)

    pub call_with_slot-IsConsistent :
        includes callable_statuses d.status ≡ true
        → (d.status ≡ waiting) ⊎ (d.assigned_slot_id ≡ some slot.id)
        → IsConsistent (call_with_slot db d slot actor now).0
    call_with_slot-IsConsistent callable w = elim call_with_slot-cases [
      | inl (e, _) ↦ rw e c
      | inr (inl (_, _, _, e)) ↦ rw e recall_delivery-IsConsistent
      | inr (inr (_, room, fresh, e)) ↦ rw e (
          call_into_slot-IsConsistent
            (elim w [
              | inl s ↦ s
              | inr a ↦ waiting_of_callable d callable (ground (arith, fresh, (same_iff _ _).1 a))
            ])
            room)
    ]
