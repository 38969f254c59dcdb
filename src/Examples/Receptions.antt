-- ===== src/Examples/Receptions.antt =====
-- The theorem on the start of a reception, at the small yard.
use delivery_driver_manageme.Base.{
  ℕ, ◌+◌, ◌≡◌, ◌≢◌, ◌⊎◌, bit, thrown, failed, bad_request, refl, some, none, List, [], ◌∷◌, ok,
  find_by, any,
}
use delivery_driver_manageme.Schema.{called, Delivery}
use delivery_driver_manageme.Store.{
  Db, find_delivery, slot_unit_config_id, slot_location_id, config_of,
}
use delivery_driver_manageme.SlotState.{is_active_at, occupancy}
use delivery_driver_manageme.Consistency.{IsConsistent}
use delivery_driver_manageme.Permissions.{
  PermissionProfile, receiving, role_has_unit_operation_scope,
  assert_can_access_operational_location,
}
use delivery_driver_manageme.Slots.Placing.{get_scope_for_slot, get_scope_for_delivery}
use delivery_driver_manageme.Reception.{
  GrantedUnit, grants, assert_unit_permission, ensure_delivery_access, start_receiving,
}
use delivery_driver_manageme.Reception.Laws.{IsReceptionOf, start_receiving_effect}
use delivery_driver_manageme.Examples.{yard, yard-IsConsistent, staff, truck_21, find_21}

abbrev pub clerk : PermissionProfile
clerk = record {
  role = receiving;
  business_location_id = some 5;
  operation_units = [];
  manageable_units = none;
}

abbrev pub granted : List GrantedUnit
granted = record { id = 1; unit = 7; business_location_id = 5 } ∷ []

pub has_access : ensure_delivery_access granted (some clerk) yard truck_21 ≡ ok tt
unfolding ensure_delivery_access assert_can_access_operational_location assert_unit_permission
    grants role_has_unit_operation_scope get_scope_for_delivery get_scope_for_slot
    slot_unit_config_id slot_location_id config_of find_by any
has_access = refl

start_receiving_effect_example :
    let started = start_receiving granted (λ db. db) yard 21 (some clerk) staff 100 in
    ((truck_21.status ≢ called) × (started ≡ thrown bad_request))
    ⊎ ((truck_21.status ≡ called) × (find_delivery 21 yard ≡ none) × (started ≡ failed))
    ⊎ ((truck_21.status ≡ called)
        × ((e : Delivery) × (find_delivery 21 yard ≡ some e)
            × ((db' : Db) × (u : Delivery) × (started ≡ ok (db', u))
                × (find_delivery 21 db' ≡ some u)
                × IsReceptionOf truck_21 u.status
                × (u.receiving_start_time ≡ some 100)
                × (u.assigned_slot_id ≡ e.assigned_slot_id)
                × ((j : ℕ) → (21 ≡ j) ⊎ (find_delivery j db' ≡ find_delivery j yard))
                × ((j : ℕ)
                    → occupancy j db' + bit (is_active_at j e)
                      ≡ occupancy j yard + bit (is_active_at j u))
                × ((e.status ≢ called) ⊎ IsConsistent db'))))
start_receiving_effect_example =
    start_receiving_effect granted (λ db. db) yard (some clerk) staff 100 truck_21 find_21
      has_access yard-IsConsistent
