-- ===== src/Handlers.antt =====
-- backend/src/modules/deliveries/deliveryService.ts: checkInById and callDelivery.
-- The audit records and messages are not modelled, nor is the automatic assignment that a check-in starts
-- without waiting for it.
pub mod Laws
use delivery_driver_manageme.Base.{
  ℕ, ◌==◌, Bool, true, false, not, if◌then◌else◌, Option, none, some, List, ◌===◌, not_found,
  bad_request, conflict, Result, ok, thrown, require, or_throw, ◌>>=◌, ◌>>◌,
}
use delivery_driver_manageme.Schema.{
  Text, DeliveryStatus, waiting, status_eq, Delivery, Slot, Actor,
}
use delivery_driver_manageme.Store.{Db, find_delivery, find_slot}
use delivery_driver_manageme.Permissions.{PermissionProfile}
use delivery_driver_manageme.Slots.{assert_slot_operation_access}
use delivery_driver_manageme.Tickets.{Calendar}
use delivery_driver_manageme.CheckIn.{CheckInResult, check_in_delivery}
use delivery_driver_manageme.ManualCall.{
  CallOutcome, ManualCallResult, is_success, manual_call_delivery,
}
use delivery_driver_manageme.Reception.{GrantedUnit, ensure_delivery_access}

-- backend/src/lib/dateVN.ts: a delivery without a date may come any day.
unfoldable pub is_scheduled_for_today : Calendar → Option ℕ → ℕ → Bool
is_scheduled_for_today calendar none now = true
is_scheduled_for_today calendar (some t) now = calendar.vn_date_key now == calendar.vn_date_key t

-- What `checkInById` makes of the result of the service.
abbrev pub answer_checked_in : Db × CheckInResult → Result (Db × Delivery)
answer_checked_in (db, r) = do
  updated ← or_throw r.delivery not_found
  require (updated.status === waiting) conflict
  ok (db, updated)

unfoldable pub check_in_by_id :
    Calendar
    → (ℕ → Text)
    → List GrantedUnit
    → Db
    → ℕ
    → Option PermissionProfile
    → Actor
    → ℕ
    → Result (Db × Delivery)
check_in_by_id calendar upper granted db id user actor now = do
  d ← or_throw (find_delivery id db) not_found
  ensure_delivery_access granted user db d
  if d.status === waiting
      then ok (db, d)
      else (require (d.status === DeliveryStatus.registered) bad_request
          >> require (is_scheduled_for_today calendar d.requested_time now) bad_request
          >> (check_in_delivery calendar upper db d.id (some d.unit_config_id) actor now
              >>= answer_checked_in))

abbrev is_missing : CallOutcome → Bool
is_missing CallOutcome.delivery_not_found = true
is_missing CallOutcome.slot_not_found = true
is_missing _ = false

abbrev is_invalid : CallOutcome → Bool
is_invalid CallOutcome.invalid_status = true
is_invalid _ = false

-- What `callDelivery` makes of the outcome of the service.
unfoldable pub answer_called : Db × ManualCallResult → Result (Db × Delivery)
answer_called (db, r) = do
  require (not (is_missing r.outcome)) not_found
  require (not (is_invalid r.outcome)) conflict
  require (is_success r.outcome) bad_request
  d ← or_throw r.delivery not_found
  ok (db, d)

unfoldable pub call_delivery :
    List GrantedUnit → Db → ℕ → ℕ → Option PermissionProfile → Actor → ℕ → Result (Db × Delivery)
call_delivery granted db id slot_id user actor now = do
  d ← or_throw (find_delivery id db) not_found
  ensure_delivery_access granted user db d
  slot ← or_throw (find_slot slot_id db) not_found
  assert_slot_operation_access user slot db
  answer_called (manual_call_delivery db id slot_id actor now)
