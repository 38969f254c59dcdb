-- ===== src/Slots.antt =====
-- backend/src/modules/slots/slotService.ts: updateSlotStatus and reconcileSlot.
-- The broadcast of the slots after the transaction is not modelled.
pub mod Laws
pub mod Placing
pub mod Removal
use delivery_driver_manageme.Base.{
  ℕ, Bool, true, false, not, if◌then◌else◌, Option, none, some, not_found, Result, ok, thrown,
  ◌>>=◌, ◌>>◌, or_throw,
}
use delivery_driver_manageme.Schema.{SlotStatus, Slot}
use delivery_driver_manageme.Store.{
  Db, find_slot, update_slot, slot_unit_config_id, slot_location_id,
}
use delivery_driver_manageme.SlotState.{
  SlotStateSnapshot, is_manual_slot_status, reconcile_slot_state,
}
use delivery_driver_manageme.Permissions.{
  PermissionProfile, assert_can_operate_unit, assert_can_access_operational_location,
}

unfoldable pub assert_slot_operation_access :
    Option PermissionProfile → Slot → Db → Result (Unit {0})
assert_slot_operation_access user slot db = do
  assert_can_access_operational_location user (slot_location_id slot db)
  assert_can_operate_unit user (slot_unit_config_id slot db)

abbrev pub set_status : SlotStatus → Slot → Slot
set_status status s = record s { status = status }

-- `if (!slot) throw domainError.notFound(…)`
abbrev pub answer : Db × Option SlotStateSnapshot → Result (Db × SlotStateSnapshot)
answer (db, none) = thrown not_found
answer (db, some snapshot) = ok (db, snapshot)

-- The transaction of `updateSlotStatus`.
unfoldable pub write_status : Db → ℕ → SlotStatus → Db × Option SlotStateSnapshot
write_status db id status =
    if is_manual_slot_status status
    then reconcile_slot_state (update_slot id (set_status status) db) id true
    else reconcile_slot_state db id false

unfoldable pub update_slot_status :
    Db → ℕ → SlotStatus → Option PermissionProfile → Result (Db × SlotStateSnapshot)
update_slot_status db id status user = do
  current ← or_throw (find_slot id db) not_found
  assert_slot_operation_access user current db
  answer (write_status db id status)

unfoldable pub reconcile_slot :
    Db → ℕ → Bool → Option PermissionProfile → Result (Db × SlotStateSnapshot)
reconcile_slot db id force user = do
  current ← or_throw (find_slot id db) not_found
  assert_slot_operation_access user current db
  answer (reconcile_slot_state db id (not force))
