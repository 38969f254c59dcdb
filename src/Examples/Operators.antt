-- ===== src/Examples/Operators.antt =====
-- The theorems on what operators and jobs do, at the small yard.
use delivery_driver_manageme.Base.{
  ◌⊎◌, arith, find_row, min, ℕ, ◌≡◌, inl, refl, ◌≤◌, true, false, none, some, [], ◌∷◌, select, ok,
  thrown, forbidden, find_by, any,
}
use delivery_driver_manageme.Schema.{SlotStatus}
use delivery_driver_manageme.Store.{
  Db, find_delivery, find_slot, slot_unit_config_id, slot_location_id,
}
use delivery_driver_manageme.SlotState.{SlotStateSnapshot}
use delivery_driver_manageme.Consistency.{IsConsistent}
use delivery_driver_manageme.ManualCall.{manual_call_delivery}
use delivery_driver_manageme.ManualCall.Effects.{
  CallEffect, manual_call_delivery_effect, manual_call_delivery-IsConsistent,
}
use delivery_driver_manageme.Scheduler.{JobState, tick, ended, on_events}
use delivery_driver_manageme.Scheduler.Laws.{IsLocked, on_events-IsLocked}
use delivery_driver_manageme.Lifecycle.{mark_cancelled}
use delivery_driver_manageme.NoShow.{auto_cancel_called_no_show_deliveries}
use delivery_driver_manageme.NoShow.Turns.{IsNoShow}
use delivery_driver_manageme.NoShow.Laws.{auto_cancel_called_no_show_deliveries_effect}
use delivery_driver_manageme.Permissions.{
  admin_loc, receiving, PermissionProfile, role_has_unit_operation_scope, can_manage_user_role,
  can_assign_user_scope, can_operate_unit, filter_operable_units, assert_can_operate_unit,
  assert_can_access_operational_location,
}
use delivery_driver_manageme.Permissions.Laws.{
  can_manage_user_role_lem, filter_operable_units-can_operate_unit,
}
use delivery_driver_manageme.Slots.{assert_slot_operation_access, update_slot_status}
use delivery_driver_manageme.Slots.Placing.{Removal, assign_delivery_to_slot}
use delivery_driver_manageme.Slots.Removal.{assign_delivery_to_slot_unplaced}
use delivery_driver_manageme.RateLimit.{RateLimitOptions, Bucket, bucket_key, allowed_requests}
use delivery_driver_manageme.RateLimit.Laws.{allowed_requests_lem}
use delivery_driver_manageme.Slots.Laws.{Answers, update_slot_status_effect}
use delivery_driver_manageme.Examples.{
  yard, yard-IsConsistent, staff, slot_1, truck_22, find_21, truck_21, find_slot_1,
}

find_22 : find_delivery 22 yard ≡ some truck_22
unfolding find_by
find_22 = refl

manual_call_delivery_effect_example :
    CallEffect yard 22 1 truck_22 100 (manual_call_delivery yard 22 1 staff 100)
manual_call_delivery_effect_example =
    manual_call_delivery_effect yard 22 1 staff 100 truck_22 find_22

manual_call_delivery-IsConsistent_example :
    IsConsistent (manual_call_delivery yard 22 1 staff 100).0
manual_call_delivery-IsConsistent_example =
    manual_call_delivery-IsConsistent yard 22 1 staff 100 truck_22 yard-IsConsistent find_22
      (inl refl)

abbrev minute : ℕ → ℕ
minute k = 100000000

auto_cancel_called_no_show_deliveries_effect_example :
    let (db', r) = auto_cancel_called_no_show_deliveries minute 2 3 (λ n db. db) yard in
    IsConsistent db'
    × (r.succeeded ≤ r.processed)
    × ((find_delivery 21 db' ≡ some truck_21)
        ⊎ ((k : ℕ) × (last : ℕ) × IsNoShow yard truck_21 last (minute k)
            × (find_delivery 21 db' ≡ some (mark_cancelled 3 (minute k) truck_21))))
auto_cancel_called_no_show_deliveries_effect_example =
    auto_cancel_called_no_show_deliveries_effect minute 2 3 (λ n db. db) yard truck_21
      yard-IsConsistent find_21
      (record { consistent = λ n db c. c; row = λ n db. refl; calls = λ n db. refl })

abbrev receiver : PermissionProfile
receiver = record {
  role = receiving;
  business_location_id = some 5;
  operation_units = record { id = 1; is_active = true } ∷ [];
  manageable_units = none;
}

can_manage_user_role_lem_example :
    (can_assign_user_scope (some admin_loc) receiving ≡ true)
    × (can_manage_user_role (some receiving) admin_loc ≡ false)
    × (role_has_unit_operation_scope (some receiving) ≡ true)
unfolding can_manage_user_role
can_manage_user_role_lem_example = can_manage_user_role_lem admin_loc receiving refl

abbrev self : ℕ → ℕ
self i = i

filter_operable_units-can_operate_unit_example :
    filter_operable_units self receiver (1 ∷ 2 ∷ [])
    ≡ select (λ i. can_operate_unit (some receiver) (some i)) (1 ∷ 2 ∷ [])
filter_operable_units-can_operate_unit_example =
    filter_operable_units-can_operate_unit self receiver (1 ∷ 2 ∷ []) (refl, (refl, tt))

may_operate : assert_slot_operation_access (some receiver) slot_1 yard ≡ ok tt
unfolding assert_slot_operation_access assert_can_access_operational_location
    assert_can_operate_unit role_has_unit_operation_scope can_operate_unit slot_unit_config_id
    slot_location_id find_by any delivery_driver_manageme.Store.config_of
may_operate = refl

update_slot_status_effect_example :
    (db' : Db) × (snapshot : SlotStateSnapshot) × (update_slot_status yard 1 SlotStatus.maintenance
        (some receiver)
      ≡ ok (db', snapshot))
    × IsConsistent db'
    × (find_slot 1 db' ≡ some snapshot.slot)
    × Answers yard SlotStatus.maintenance slot_1 snapshot.slot
update_slot_status_effect_example =
    update_slot_status_effect yard 1 SlotStatus.maintenance (some receiver) slot_1 yard-IsConsistent
      find_slot_1 may_operate

assign_delivery_to_slot_unplaced_example :
    assign_delivery_to_slot yard 1 22 100 (some receiver) ≡ thrown forbidden
assign_delivery_to_slot_unplaced_example =
    assign_delivery_to_slot_unplaced yard 1 22 100 receiver slot_1 truck_22 find_slot_1 may_operate
      find_22 refl

-- Three a minute; two have come.
abbrev three_a_minute : RateLimitOptions
three_a_minute = record { window_ms = 60000; limit = 3 }

abbrev two_seen : Bucket
two_seen = record { key = 9; count = 2; reset_at = 60000 }

two_seen_found : find_row bucket_key 9 (two_seen ∷ []) ≡ some two_seen
unfolding find_by
two_seen_found = refl

allowed_requests_lem_example :
    allowed_requests three_a_minute 9 (100 ∷ 200 ∷ []) (two_seen ∷ []) ≡ min 2 1
allowed_requests_lem_example =
    allowed_requests_lem three_a_minute 9 (100 ∷ 200 ∷ []) (two_seen ∷ []) two_seen two_seen_found
      (omega arith, (omega arith, tt))

abbrev idle : JobState
idle = record { is_running = false; last_run_at = none; last_result = none; next_run_at = none }

on_events-IsLocked_example :
    IsLocked (on_events (tick 100 ∷ tick 160 ∷ ended none 220 ∷ tick 220 ∷ []) (idle, 0))
on_events-IsLocked_example =
    on_events-IsLocked (tick 100 ∷ tick 160 ∷ ended none 220 ∷ tick 220 ∷ []) (idle, 0) refl
