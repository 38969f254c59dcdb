-- ===== src/Reception.antt =====
-- backend/src/modules/deliveries/deliveryService.ts: startReceiving, cancel and complete, with the check of access.
-- `granted` are the units that `getUserUnitPermissions` loads. The audit records and messages are not
-- modelled, nor is the automatic assignment that `cancel` starts without waiting for it.
pub mod Laws
pub mod Completion
use delivery_driver_manageme.Base.{
  ℕ, ◌==◌, Bool, true, false, not, ◌&&◌, ◌||◌, if◌then◌else◌, is_truthy, same, or_else, Option,
  none, some, List, any, ◌===◌, unauthorized, forbidden, not_found, bad_request, conflict, Result,
  ok, thrown, failed, require, or_throw, ◌>>=◌, ◌>>◌,
}
use delivery_driver_manageme.Schema.{
  DeliveryStatus, called, receiving, auto_warehouse_receiving, status_eq, EventType,
  receiving_started, auto_warehouse_receiving_started, FinalStatus, Delivery, Actor, Message,
}
use delivery_driver_manageme.Store.{Db, find_delivery, update_delivery}
use delivery_driver_manageme.History.{record_delivery_event}
use delivery_driver_manageme.Lifecycle.{
  DeliveryResult, Outcome, invalid_status, cancel_delivery, complete_delivery,
}
use delivery_driver_manageme.Archive.{
  ArchiveInput, ArchiveReason, ArchiveResult, archive_delivery_in_transaction,
}
use delivery_driver_manageme.Permissions.{
  PermissionProfile, role_has_unit_operation_scope, assert_can_access_operational_location,
}
use delivery_driver_manageme.Slots.Placing.{get_scope_for_delivery}

pub record GrantedUnit : Type 0 where
  pub id : ℕ
  pub unit : ℕ
  pub business_location_id : ℕ

unfoldable pub grants : PermissionProfile → Delivery → GrantedUnit → Bool
grants user d u =
    same (some u.business_location_id) user.business_location_id
    && (if is_truthy d.unit_config_id
        then same (some u.id) d.unit_config_id
        else u.unit == d.receiving_unit)

unfoldable pub assert_unit_permission :
    List GrantedUnit → Option PermissionProfile → Delivery → Result (Unit {0})
assert_unit_permission granted actor d = do
  user ← or_throw actor unauthorized
  if not (role_has_unit_operation_scope (some user.role))
      then ok tt
      else (require (is_truthy user.business_location_id) forbidden
          >> require (any (grants user d) granted) forbidden)

unfoldable pub ensure_delivery_access :
    List GrantedUnit → Option PermissionProfile → Db → Delivery → Result (Unit {0})
ensure_delivery_access granted user db d = do
  assert_can_access_operational_location user
      (get_scope_for_delivery db d.unit_config_id d.assigned_slot_id).business_location_id
  assert_unit_permission granted user d

abbrev pub receiving_status : Delivery → DeliveryStatus
receiving_status d = if d.auto_warehouse then auto_warehouse_receiving else receiving

abbrev receiving_event : Delivery → EventType
receiving_event d = if d.auto_warehouse then auto_warehouse_receiving_started else receiving_started

abbrev pub mark_receiving : DeliveryStatus → ℕ → Delivery → Delivery
mark_receiving s now d = record d { status = s; receiving_start_time = some now; updated_at = now }

-- The writes of `startReceiving`: the row `e` is updated whatever it is by then, and the event names the
-- status of the row `d` that was read. The event is written on its own; here nothing comes before it.
unfoldable pub receive_called : Db → Delivery → Delivery → Actor → ℕ → Db
receive_called db d e actor now =
    let updated = mark_receiving (receiving_status d) now e in
    record_delivery_event updated
      (record {
        actor = actor;
        event_type = receiving_event d;
        from_status = some d.status;
        to_status = some updated.status;
        occurred_at = now;
        message = some Message.receiving_started;
        reason = none;
        slot = none;
      })
      (update_delivery d.id (mark_receiving (receiving_status d) now) db)

-- The update of a row that is gone fails.
unfoldable pub receive_read : Db → Delivery → Actor → ℕ → Result (Db × Delivery)
receive_read db d actor now = elim (find_delivery d.id db) [
  | none ↦ failed
  | some e ↦ ok (receive_called db d e actor now, mark_receiving (receiving_status d) now e)
]

-- No lock is held: `others` is what other transactions write between the read and the update.
unfoldable pub start_receiving :
    List GrantedUnit
    → (Db → Db)
    → Db
    → ℕ
    → Option PermissionProfile
    → Actor
    → ℕ
    → Result (Db × Delivery)
start_receiving granted others db id user actor now = do
  d ← or_throw (find_delivery id db) not_found
  ensure_delivery_access granted user db d
  require (d.status === called) bad_request
  receive_read (others db) d actor now

abbrev access_if_found :
    List GrantedUnit → Option PermissionProfile → Db → Option Delivery → Result (Unit {0})
access_if_found granted user db none = ok tt
access_if_found granted user db (some d) = ensure_delivery_access granted user db d

abbrev is_invalid : Outcome → Bool
is_invalid invalid_status = true
is_invalid _ = false

-- What `cancel` makes of the outcome of the service: the delivery, and whether nothing changed.
abbrev answer_closed : Db × DeliveryResult → Result (Db × Delivery × Bool)
answer_closed (db, r) = do
  d ← or_throw r.delivery not_found
  require (not (is_invalid r.outcome)) conflict
  ok (db, d, not r.changed)

unfoldable pub cancel :
    List GrantedUnit
    → Db
    → ℕ
    → ℕ
    → Option PermissionProfile
    → Actor
    → Message
    → ℕ
    → Result (Db × Delivery × Bool)
cancel granted db id reason user actor message now = do
  access_if_found granted user db (find_delivery id db)
  answer_closed (cancel_delivery db id reason actor message now)

abbrev pub completed_input : ℕ → Actor → Delivery → ArchiveInput
completed_input closing actor d = record {
  delivery_id = d.id;
  final_status = FinalStatus.completed;
  archive_reason = ArchiveReason.completed;
  close_reason = some closing;
  job_run_id = none;
  occurred_at = none;
  delete_operational_row = false;
  expected_status = none;
  updated_before = none;
  actor = actor;
}

abbrev pub answer_archived : Delivery → Db × ArchiveResult → Result (Db × Delivery × Bool)
answer_archived d (db, r) = ok (db, d, false)

-- `new_id` is the id of a new history row, `closing` the text of its reason.
unfoldable pub archive_completed :
    ℕ → ℕ → Actor → ℕ → Db × DeliveryResult → Result (Db × Delivery × Bool)
archive_completed new_id closing actor now (db, r) = do
  d ← or_throw r.delivery not_found
  require (not (is_invalid r.outcome)) conflict
  if r.changed
      then (archive_delivery_in_transaction new_id now db (completed_input closing actor d)
          >>= answer_archived d)
      else ok (db, d, true)

unfoldable pub complete :
    List GrantedUnit
    → Db
    → ℕ
    → ℕ
    → ℕ
    → Option PermissionProfile
    → Actor
    → ℕ
    → Result (Db × Delivery × Bool)
complete granted db id new_id closing user actor now = do
  access_if_found granted user db (find_delivery id db)
  archive_completed new_id closing actor now (complete_delivery db id actor now)
