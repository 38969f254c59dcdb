-- ===== src/Lifecycle.antt =====
-- backend/src/services/deliveryLifecycle.ts: completing and cancelling a delivery.
pub mod Laws
pub mod Consistency
use delivery_driver_manageme.Base.{
  ℕ, Bool, true, false, not, if◌then◌else◌, is_truthy, ◌==◌, ◌||◌, includes, ◌===◌, Option, none,
  some, List, [], ◌∷◌,
}
use delivery_driver_manageme.Schema.{
  DeliveryStatus, called, receiving, auto_warehouse_receiving, status_eq, EventType, Delivery,
  Actor, Message,
}
use delivery_driver_manageme.Store.{Db, find_delivery, update_delivery}
use delivery_driver_manageme.SlotState.{reconcile_slot_state}
use delivery_driver_manageme.History.{record_delivery_event}

abbrev pub completable_statuses : List DeliveryStatus
completable_statuses = called ∷ receiving ∷ auto_warehouse_receiving ∷ []

abbrev pub non_cancellable_statuses : List DeliveryStatus
non_cancellable_statuses =
    DeliveryStatus.completed ∷ DeliveryStatus.cancelled ∷ DeliveryStatus.expired ∷ []

pub data Outcome : Type 0 where
  completed already_completed cancelled already_cancelled not_found invalid_status : Outcome

pub record DeliveryResult : Type 0 where
  pub outcome : Outcome
  pub delivery : Option Delivery
  pub changed : Bool
  pub released_slot_id : Option ℕ

-- An outcome that leaves the database alone.
abbrev pub unchanged : Outcome → Option Delivery → DeliveryResult
unchanged o d = record { outcome = o; delivery = d; changed = false; released_slot_id = none }

abbrev pub changed_to : Outcome → Delivery → Option ℕ → DeliveryResult
changed_to o d slot = record {
  outcome = o;
  delivery = some d;
  changed = true;
  released_slot_id = slot;
}

abbrev pub slot_to_release : Delivery → Option ℕ
slot_to_release d = if is_truthy d.assigned_slot_id then d.assigned_slot_id else none

unfoldable pub reconcile_released : Option ℕ → Db → Db
reconcile_released none db = db
reconcile_released (some i) db = (reconcile_slot_state db i true).0

unfoldable pub release_slot_for_delivery : Db → Delivery → Db × Option ℕ
release_slot_for_delivery db d = (reconcile_released (slot_to_release d) db, slot_to_release d)

-- The written columns; `updatedAt` is set on every write of the row.
abbrev pub mark_completed : ℕ → Delivery → Delivery
mark_completed now d = record d {
  completed_time = some now;
  status = DeliveryStatus.completed;
  updated_at = now;
}

abbrev pub mark_cancelled : ℕ → ℕ → Delivery → Delivery
mark_cancelled reason now d = record d {
  status = DeliveryStatus.cancelled;
  cancel_reason = some reason;
  updated_at = now;
}

unfoldable pub complete_found : Db → Delivery → Actor → ℕ → Db × DeliveryResult
complete_found db d actor now =
    let completed = mark_completed now d in
    let written =
      record_delivery_event completed
        (record {
          actor = actor;
          event_type = EventType.completed;
          from_status = some d.status;
          to_status = some completed.status;
          occurred_at = now;
          message = some Message.completed;
          reason = none;
          slot = none;
        })
        (update_delivery d.id (mark_completed now) db) in
    let (released, slot) = release_slot_for_delivery written d in
    (released, changed_to Outcome.completed completed slot)

unfoldable pub complete_delivery : Db → ℕ → Actor → ℕ → Db × DeliveryResult
unfolding complete_found
complete_delivery db i actor now = elim (find_delivery i db) [
  | none ↦ (db, unchanged not_found none)
  | some d ↦
      if d.status === DeliveryStatus.completed
      then (db, unchanged already_completed (some d))
      else if not (includes completable_statuses d.status)
      then (db, unchanged invalid_status (some d))
      else complete_found db d actor now
]

unfoldable pub cancel_found : Db → Delivery → ℕ → Actor → Message → ℕ → Db × DeliveryResult
cancel_found db d reason actor message now =
    let cancelled = mark_cancelled reason now d in
    let written =
      record_delivery_event cancelled
        (record {
          actor = actor;
          event_type = EventType.cancelled;
          from_status = some d.status;
          to_status = some cancelled.status;
          occurred_at = now;
          message = some message;
          reason = some reason;
          slot = none;
        })
        (update_delivery d.id (mark_cancelled reason now) db) in
    let (released, slot) = release_slot_for_delivery written d in
    (released, changed_to Outcome.cancelled cancelled slot)

unfoldable pub cancel_delivery : Db → ℕ → ℕ → Actor → Message → ℕ → Db × DeliveryResult
unfolding cancel_found
cancel_delivery db i reason actor message now = elim (find_delivery i db) [
  | none ↦ (db, unchanged not_found none)
  | some d ↦
      if d.status === DeliveryStatus.cancelled
      then (db, unchanged already_cancelled (some d))
      else if includes non_cancellable_statuses d.status
      then (db, unchanged invalid_status (some d))
      else cancel_found db d reason actor message now
]
