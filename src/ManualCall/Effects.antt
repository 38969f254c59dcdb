-- ===== src/ManualCall/Effects.antt =====
-- `manualCallDelivery` as a whole.
use delivery_driver_manageme.Base.{
  ℕ, ◌+◌, ◌<◌, ◌≡◌, refl, sym, subst, ◌⊎◌, inl, inr, true, false, some, Option-cases, Bool-cases,
  includes, key-find_row, find_row-update_row_self,
}
use delivery_driver_manageme.Schema.{DeliveryStatus, waiting, status_eq, Slot, Delivery, Actor}
use delivery_driver_manageme.Store.{Db, delivery_id, slot_id, find_delivery, find_slot}
use delivery_driver_manageme.Consistency.{IsConsistent}
use delivery_driver_manageme.AutoAssign.{mark_called}
use delivery_driver_manageme.ManualCall.{
  is_success, CallOutcome, ManualCallResult, callable_statuses, active_in_target, recall_delivery,
  call_into_slot, call_with_slot, manual_call_delivery,
}
use delivery_driver_manageme.ManualCall.Laws.{
  IsCallable, call_with_slot-cases, call_with_slot-IsConsistent, deliveries-call_into_slot,
}

-- The three ways a call ends.
abbrev pub CallEffect : Db → ℕ → ℕ → Delivery → ℕ → Db × ManualCallResult → Type 0
CallEffect db i j d now (db', r) =
    ((db' ≡ db) × (is_success r.outcome ≡ false))
    ⊎ ((slot : Slot) × (find_slot j db ≡ some slot)
        × IsCallable db d slot
        × (((r.outcome ≡ CallOutcome.recalled)
              × (d.status ≡ DeliveryStatus.called)
              × (d.assigned_slot_id ≡ some j)
              × (db'.deliveries ≡ db.deliveries))
            ⊎ ((r.outcome ≡ CallOutcome.called)
                × (active_in_target db slot d < slot.max_capacity)
                × (r.active_count ≡ some (active_in_target db slot d + 1))
                × (find_delivery i db' ≡ some (mark_called j now d)))))

call_with_slot_effect :
    (db : Db) (d : Delivery) (slot : Slot) (actor : Actor) (now : ℕ)
    → find_delivery d.id db ≡ some d
    → find_slot slot.id db ≡ some slot
    → CallEffect db d.id slot.id d now (call_with_slot db d slot actor now)
unfolding recall_delivery call_into_slot
call_with_slot_effect db d slot actor now h at = elim (call_with_slot-cases db d slot actor now) [
  | inl f ↦ inl f
  | inr (inl (k, s, a, e)) ↦ inr (slot, at, k, inl (rw e refl, s, a, rw e refl))
  | inr (inr (k, room, _, e)) ↦ inr (
    slot,
    at,
    k,
    inr (
      rw e refl,
      room,
      rw e refl,
      rw (e, deliveries-call_into_slot db d slot actor now)
          (find_row-update_row_self delivery_id (mark_called slot.id now) (λ x. refl) d.id
            db.deliveries d h),
    ),
  )
]

module _ (db : Db) (i j : ℕ) (actor : Actor) (now : ℕ) (d : Delivery)
    (h : find_delivery i db ≡ some d) where
  -- A call fails and changes nothing, or it reaches the guards on a slot that exists.
  pub manual_call_delivery-cases :
      let r = manual_call_delivery db i j actor now in
      ((r.0 ≡ db) × (is_success r.1.outcome ≡ false))
      ⊎ ((slot : Slot) × (find_slot slot.id db ≡ some slot)
          × (slot.id ≡ j)
          × (includes callable_statuses d.status ≡ true)
          × (r ≡ call_with_slot db d slot actor now))
  unfolding manual_call_delivery
  manual_call_delivery-cases = elim (Bool-cases (includes callable_statuses d.status)) [
    | inl s ↦ elim (Option-cases (find_slot j db)) [
      | inl e ↦ inl (
        rw (h, manual_call_delivery) (rw (s, e) refl),
        rw (h, manual_call_delivery) (rw (s, e) refl),
      )
      | inr (slot, e) ↦
          let own = key-find_row slot_id j db.slots slot e in
          inr (slot, rw (sym own) at e, own, s, rw (h, manual_call_delivery) (rw (s, e) refl))
    ]
    | inr s ↦
        inl (rw (h, manual_call_delivery) (rw s refl), rw (h, manual_call_delivery) (rw s refl))
  ]

  -- Calling a stored delivery by hand fails and changes nothing; or it invites again a delivery that
  -- was called into this very slot; or the delivery is stored as called into the slot. A call that
  -- succeeds is into an active slot of the delivery's location that no operator holds, which is of its
  -- own unit or empty but for it, and one that moves the delivery finds a place left.
  pub manual_call_delivery_effect : CallEffect db i j d now (manual_call_delivery db i j actor now)
  manual_call_delivery_effect = elim manual_call_delivery-cases [
    | inl f ↦ inl f
    | inr (slot, at, own, _, e) ↦
        let named = key-find_row delivery_id i db.deliveries d h in
        subst (λ k. CallEffect db i k d now (manual_call_delivery db i j actor now)) own
          (subst (λ k. CallEffect db k slot.id d now (manual_call_delivery db i j actor now)) named
            (rw e (call_with_slot_effect db d slot actor now (rw (sym named) at h) at)))
  ]

-- In a consistent yard, calling by hand a stored delivery that waits, or that is in this slot already,
-- keeps the yard consistent, whatever the outcome.
pub manual_call_delivery-IsConsistent :
    (db : Db) (i j : ℕ) (actor : Actor) (now : ℕ) (d : Delivery)
    → IsConsistent db
    → find_delivery i db ≡ some d
    → (d.status ≡ waiting) ⊎ (d.assigned_slot_id ≡ some j)
    → IsConsistent (manual_call_delivery db i j actor now).0
manual_call_delivery-IsConsistent db i j actor now d c h w =
    elim (manual_call_delivery-cases db i j actor now d h) [
      | inl (e, _) ↦ rw e c
      | inr (slot, at, own, s, e) ↦
          let h' = rw (sym (key-find_row delivery_id i db.deliveries d h)) at h in
          rw e (
            call_with_slot-IsConsistent db d slot actor now c h' at s
              (subst (λ k. (d.status ≡ waiting) ⊎ (d.assigned_slot_id ≡ some k)) (sym own) w))
    ]
