-- ===== src/Slots/Placing.antt =====
-- backend/src/modules/slots/slotService.ts: assignDeliveryToSlot and deleteSlot; and
-- backend/src/services/realtimeScope.ts, which names the unit and the location of a delivery.
use delivery_driver_manageme.Base.{
  ℕ, ◌==◌, ltb, Bool, true, false, not, ◌||◌, if◌then◌else◌, is_truthy, same, Option, none, some,
  count_by, select, not_found, conflict, Result, ok, thrown, ◌>>=◌, ◌>>◌, or_throw,
}
use delivery_driver_manageme.Schema.{maintenance, Slot, Delivery, HistoryEvent, UnitConfig}
use delivery_driver_manageme.Store.{
  Db, Scope, find_slot, find_delivery, update_slot, update_delivery, mark_used, config_of,
  slot_unit_config_id, slot_location_id,
}
use delivery_driver_manageme.SlotState.{
  SlotStateSnapshot, is_manual_slot_status, reconcile_slot_state,
}
use delivery_driver_manageme.Permissions.{
  PermissionProfile, assert_can_operate_unit, assert_can_access_operational_location,
}
use delivery_driver_manageme.Slots.{assert_slot_operation_access}

abbrev no_scope : Scope
no_scope = record { unit_config_id = none; business_location_id = none }

abbrev scope_of_slot : Option Slot → Db → Scope
scope_of_slot none db = no_scope
scope_of_slot (some s) db = record {
  unit_config_id = slot_unit_config_id s db;
  business_location_id = slot_location_id s db;
}

unfoldable pub get_scope_for_slot : Db → Option ℕ → Scope
get_scope_for_slot db none = no_scope
get_scope_for_slot db (some i) = if i == 0 then no_scope else scope_of_slot (find_slot i db) db

abbrev scope_of_config : Option UnitConfig → Scope
scope_of_config none = no_scope
scope_of_config (some u) = record {
  unit_config_id = some u.id;
  business_location_id = some u.business_location_id;
}

-- The delivery is given by its `unitConfigId` and its `assignedSlotId`.
unfoldable pub get_scope_for_delivery : Db → Option ℕ → Option ℕ → Scope
get_scope_for_delivery db unit_config_id assigned_slot_id =
    let slot_scope = get_scope_for_slot db assigned_slot_id in
    if is_truthy slot_scope.business_location_id || is_truthy slot_scope.unit_config_id
    then slot_scope
    else if is_truthy unit_config_id
    then scope_of_config (config_of unit_config_id db)
    else no_scope

abbrev pub place : ℕ → ℕ → Delivery → Delivery
place slot_id now d = record d { assigned_slot_id = some slot_id; updated_at = now }

abbrev snapshot_slot : Option SlotStateSnapshot → Option Slot
snapshot_slot none = none
snapshot_slot (some r) = some r.slot

-- The transaction of `assignDeliveryToSlot`, on the slot that it reads again.
unfoldable pub place_in_slot : Db → ℕ → ℕ → ℕ → Option Slot → Result (Db × Option Slot)
place_in_slot db id delivery_id now none = thrown not_found
place_in_slot db id delivery_id now (some slot) =
    if is_manual_slot_status slot.status
    then thrown conflict
    else (let placed = update_delivery delivery_id (place id now) db in
        let (db', snapshot) =
          reconcile_slot_state (update_slot id (mark_used now) placed) id true in
        ok (db', snapshot_slot snapshot))

-- `findDeliveryForScope` selects no `unitConfigId`, so the scope is asked for without one.
unfoldable pub assign_delivery_to_slot :
    Db → ℕ → ℕ → ℕ → Option PermissionProfile → Result (Db × Option Slot)
assign_delivery_to_slot db id delivery_id now user = do
  slot_check ← or_throw (find_slot id db) not_found
  assert_slot_operation_access user slot_check db
  d ← or_throw (find_delivery delivery_id db) not_found
  assert_can_access_operational_location user
      (get_scope_for_delivery db none d.assigned_slot_id).business_location_id
  assert_can_operate_unit user (get_scope_for_delivery db none d.assigned_slot_id).unit_config_id
  place_in_slot db id delivery_id now (find_slot id db)

-- The body of the answer of `deleteSlot`.
pub data Removal : Type 0 where
  deleted deactivated : Removal

abbrev pub is_event_at : ℕ → HistoryEvent → Bool
is_event_at i e = same e.slot_id (some i)

abbrev pub is_assigned_to : ℕ → Delivery → Bool
is_assigned_to i d = same d.assigned_slot_id (some i)

abbrev pub deactivate : Slot → Slot
deactivate s = record s { is_active = false; status = maintenance }

unfoldable pub remove_slot : Db → ℕ → Db × Removal
remove_slot db id =
    if ltb 0 (count_by (is_event_at id) db.events)
      || ltb 0 (count_by (is_assigned_to id) db.deliveries)
    then (update_slot id deactivate db, deactivated)
    else (record db { slots = select (λ s. not (s.id == id)) db.slots }, deleted)

unfoldable pub delete_slot : Db → ℕ → Option PermissionProfile → Result (Db × Removal)
delete_slot db id user = do
  slot ← or_throw (find_slot id db) not_found
  assert_slot_operation_access user slot db
  ok (remove_slot db id)
