-- ===== src/ManualCall.antt =====
-- backend/src/services/manualCallDelivery.ts: an operator calls a delivery into a slot.
-- The texts of the refusals and the JSON metadata of the event are not modelled.
pub mod Laws
pub mod Effects
use delivery_driver_manageme.Base.{
  ℕ, ◌+◌, ◌==◌, ltb, leb, Bool, true, false, not, ◌&&◌, ◌||◌, if◌then◌else◌, is_truthy, same,
  includes, ◌===◌, Option, none, some, List, [], ◌∷◌, count_by,
}
use delivery_driver_manageme.Schema.{
  DeliveryStatus, waiting, status_eq, EventType, manual_called, reassigned_slot, Slot, Delivery,
  Actor, Message, invite,
}
use delivery_driver_manageme.Store.{
  Db, find_delivery, find_slot, update_delivery, update_slot, mark_used, slot_location_id,
  config_of, location_of,
}
use delivery_driver_manageme.SlotState.{
  is_active_at, occupancy, is_manual_slot_status, reconcile_slot_state,
}
use delivery_driver_manageme.History.{record_delivery_event}
use delivery_driver_manageme.AutoAssign.{mark_called, reconcile_previous}

abbrev pub callable_statuses : List DeliveryStatus
callable_statuses = waiting ∷ DeliveryStatus.called ∷ []

pub data CallOutcome : Type 0 where
  called recalled already_called : CallOutcome
  delivery_not_found slot_not_found invalid_status slot_unavailable slot_mismatch slot_full :
      CallOutcome

abbrev pub is_success : CallOutcome → Bool
is_success CallOutcome.called = true
is_success CallOutcome.recalled = true
is_success CallOutcome.already_called = true
is_success _ = false

pub record ManualCallResult : Type 0 where
  pub outcome : CallOutcome
  pub delivery : Option Delivery
  pub slot : Option Slot
  pub message : Option Message
  pub notification_occurred_at : Option ℕ
  pub active_count : Option ℕ

abbrev pub call_failure : CallOutcome → Option Delivery → Option Slot → ManualCallResult
call_failure o d s = record {
  outcome = o;
  delivery = d;
  slot = s;
  message = none;
  notification_occurred_at = none;
  active_count = none;
}

abbrev slot_location : Option Slot → Db → Option ℕ
slot_location none db = none
slot_location (some s) db = slot_location_id s db

abbrev truthy_or_null : Option ℕ → Option ℕ
truthy_or_null o = if is_truthy o then o else none

abbrev slot_of : Option ℕ → Db → Option Slot
slot_of none db = none
slot_of (some i) db = find_slot i db

unfoldable pub get_delivery_home_location_id : Db → Delivery → Option ℕ
get_delivery_home_location_id db d = elim (config_of (truthy_or_null d.unit_config_id) db) [
  | some u ↦ some u.business_location_id
  | none ↦ truthy_or_null (slot_location (slot_of (truthy_or_null d.assigned_slot_id) db) db)
]

-- The active deliveries of the slot beside the one that is called.
unfoldable pub active_in_target : Db → Slot → Delivery → ℕ
active_in_target db slot d =
    count_by (λ x. is_active_at slot.id x && not (x.id == d.id)) db.deliveries

abbrev pub release_old_slot : Db → Delivery → ℕ → Db
release_old_slot db d target_slot_id = reconcile_previous d.assigned_slot_id target_slot_id db

-- The event of a call; `updated` is the delivery as it is written.
abbrev call_event : EventType → Delivery → Delivery → Slot → Actor → ℕ → Db → Db
call_event type updated d slot actor now db =
    record_delivery_event updated
      (record {
        actor = actor;
        event_type = type;
        from_status = some d.status;
        to_status = some updated.status;
        occurred_at = now;
        message = some (invite d.vehicle_plate slot.name);
        reason = none;
        slot = some slot;
      })
      db

abbrev success : CallOutcome → Delivery → Slot → ℕ → ℕ → ManualCallResult
success o d slot now count = record {
  outcome = o;
  delivery = some d;
  slot = some slot;
  message = some (invite d.vehicle_plate slot.name);
  notification_occurred_at = some now;
  active_count = some count;
}

-- The branch of a delivery that was called into this slot before.
unfoldable pub recall_delivery : Db → Delivery → Slot → Actor → ℕ → Db × ManualCallResult
recall_delivery db d slot actor now =
    let db' =
      update_slot slot.id (mark_used now) (call_event EventType.recalled d d slot actor now db) in
    (db', success CallOutcome.recalled d slot now (occupancy slot.id db'))

-- The branch that moves the delivery into the slot.
unfoldable pub call_into_slot : Db → Delivery → Slot → Actor → ℕ → Db × ManualCallResult
call_into_slot db d slot actor now =
    let updated = mark_called slot.id now d in
    let type = if d.status === DeliveryStatus.called then reassigned_slot else manual_called in
    let released = release_old_slot db d slot.id in
    let written = update_delivery d.id (mark_called slot.id now) released in
    let used =
      update_slot slot.id (mark_used now) (call_event type updated d slot actor now written) in
    (
      (reconcile_slot_state used slot.id true).0,
      success CallOutcome.called updated slot now (active_in_target db slot d + 1),
    )

-- The guards on the delivery's slot, in their order.
unfoldable pub call_with_slot : Db → Delivery → Slot → Actor → ℕ → Db × ManualCallResult
call_with_slot db d slot actor now =
    let location = get_delivery_home_location_id db d in
    let count = active_in_target db slot d in
    if not slot.is_active || is_manual_slot_status slot.status
    then (db, call_failure slot_unavailable (some d) (some slot))
    else if not (is_truthy location) || not (same (slot_location_id slot db) location)
    then (db, call_failure slot_mismatch (some d) (some slot))
    else if not (slot.assigned_unit == d.receiving_unit) && ltb 0 count
    then (db, call_failure slot_full (some d) (some slot))
    else if d.status === DeliveryStatus.called && same d.assigned_slot_id (some slot.id)
    then recall_delivery db d slot actor now
    else if leb slot.max_capacity count
    then (db, call_failure slot_full (some d) (some slot))
    else call_into_slot db d slot actor now

unfoldable pub manual_call_delivery : Db → ℕ → ℕ → Actor → ℕ → Db × ManualCallResult
manual_call_delivery db delivery_id slot_id actor now = elim (find_delivery delivery_id db) [
  | none ↦ (db, call_failure delivery_not_found none none)
  | some d ↦
      if not (includes callable_statuses d.status)
      then (db, call_failure invalid_status (some d) none)
      else elim (find_slot slot_id db) [
        | none ↦ (db, call_failure slot_not_found (some d) none)
        | some slot ↦ call_with_slot db d slot actor now
      ]
]
