-- ===== src/Examples/Calls.antt =====
-- The theorems on slots, on the lifecycle and on assignment, at the small yard.
use delivery_driver_manageme.Base.{
  ℕ, ◌≡◌, ◌⊎◌, inl, inr, refl, ◌+◌, ◌<◌, ◌==◌, suc, length, Bool, true, false, none, some, List, [],
  ◌∷◌, All, bit, arith, Option, ltb, count_by, first_by, find_by, distinct, select, ◌&&◌,
}
use delivery_driver_manageme.Schema.{goods_eq, DeliveryStatus, Delivery, Slot, other}
use delivery_driver_manageme.Store.{Db, Scope, find_delivery, find_slot, slot_unit_config_id}
use delivery_driver_manageme.SlotState.{
  occupancy, is_active_at, is_manual_slot_status, reconcile_slot_state,
}
use delivery_driver_manageme.SlotState.Laws.{IsSettled, HasCurrent, reconcile_slot_state-settles}
use delivery_driver_manageme.Consistency.{IsConsistent}
use delivery_driver_manageme.Lifecycle.{Outcome, complete_delivery, cancel_delivery, mark_completed}
use delivery_driver_manageme.Lifecycle.Laws.{
  complete_delivery_verdict, cancel_delivery_verdict, complete_delivery_effect,
}
use delivery_driver_manageme.Lifecycle.Consistency.{
  complete_delivery-IsConsistent, cancel_delivery-IsConsistent,
}
use delivery_driver_manageme.AutoAssign.{
  choose_delivery, candidate_goods_for_slot, find_next_waiting_delivery_for_slot, allowed_goods,
  next_of_candidates, next_of_goods, is_waiting_for, queue_before, AssignResult, mark_called,
  assign_next_delivery_to_slot,
}
use delivery_driver_manageme.AutoAssign.Choice.{IsOpen, IsNext, choose_delivery-IsNext}
use delivery_driver_manageme.AutoAssign.Effects.{is_waiting, assign_next_delivery_to_slot_effect}
use delivery_driver_manageme.AutoAssign.Trigger.{CodeOrders, trigger_auto_assign}
use delivery_driver_manageme.AutoAssign.Progress.{Drained, waiting_count, trigger_auto_assign_ends}
use delivery_driver_manageme.Examples.{
  yard, yard-IsConsistent, staff, slot_1, truck_21, truck_22, truck_23, find_21, find_23,
  find_slot_1,
}

complete_delivery_verdict_example :
    let (db', r) = complete_delivery yard 21 staff 95 in
    (r.outcome ≡ Outcome.completed) × ((r.outcome ≡ Outcome.completed) ⊎ (db' ≡ yard))
complete_delivery_verdict_example = complete_delivery_verdict yard 21 staff 95 truck_21 find_21

cancel_delivery_verdict_example :
    let (db', r) = cancel_delivery yard 23 8 staff (other 6) 95 in
    (r.outcome ≡ Outcome.cancelled) × ((r.outcome ≡ Outcome.cancelled) ⊎ (db' ≡ yard))
cancel_delivery_verdict_example =
    cancel_delivery_verdict yard 23 8 staff (other 6) 95 truck_23 find_23

complete_delivery_effect_example :
    let (db', r) = complete_delivery yard 21 staff 95 in
    (find_delivery 21 db' ≡ some (mark_completed 95 truck_21))
    × (r.released_slot_id ≡ some 1)
    × (length db'.events ≡ suc (length yard.events))
    × ((j : ℕ) → occupancy j db' + bit (is_active_at j truck_21) ≡ occupancy j yard)
complete_delivery_effect_example =
    complete_delivery_effect yard 21 staff 95 truck_21 yard-IsConsistent.keyed find_21 refl

complete_delivery-IsConsistent_example : IsConsistent (complete_delivery yard 21 staff 95).0
complete_delivery-IsConsistent_example =
    complete_delivery-IsConsistent yard 21 staff 95 yard-IsConsistent

cancel_delivery-IsConsistent_example : IsConsistent (cancel_delivery yard 21 8 staff (other 6) 95).0
cancel_delivery-IsConsistent_example =
    cancel_delivery-IsConsistent yard 21 8 staff (other 6) 95 yard-IsConsistent

-- The yard after the truck was completed.
reconcile_slot_state-settles_example :
    let db' = (reconcile_slot_state yard 1 true).0 in
    (t : Slot) × (find_slot 1 db' ≡ some t)
    × IsSettled t db'
    × ((t.status ≡ slot_1.status) ⊎ ((is_manual_slot_status slot_1.status && true) ≡ false))
    × HasCurrent t db'
    × ((j : ℕ) → (1 ≡ j) ⊎ (find_slot j db' ≡ find_slot j yard))
reconcile_slot_state-settles_example =
    reconcile_slot_state-settles yard 1 true slot_1 yard-IsConsistent.keyed find_slot_1

abbrev unlocked : ℕ → Bool
unlocked i = false

-- The slot prefers fresh food, but only general goods wait.
chosen : choose_delivery unlocked yard slot_1 7 ≡ some truck_22
unfolding choose_delivery find_next_waiting_delivery_for_slot candidate_goods_for_slot allowed_goods
    next_of_candidates next_of_goods is_waiting_for queue_before is_active_at is_manual_slot_status
    slot_unit_config_id delivery_driver_manageme.Base.find_by delivery_driver_manageme.Base.select
    delivery_driver_manageme.Base.distinct delivery_driver_manageme.Base.first_by
    delivery_driver_manageme.Base.count_by
chosen = refl

choose_delivery-IsNext_example :
    IsOpen yard slot_1 7
    × (truck_22.status ≡ DeliveryStatus.waiting)
    × IsNext unlocked yard slot_1
        (slot_unit_config_id slot_1 yard)
        (candidate_goods_for_slot slot_1)
        truck_22
choose_delivery-IsNext_example =
    choose_delivery-IsNext unlocked yard slot_1 7 truck_22 yard-IsConsistent.keyed chosen

assign_next_delivery_to_slot_effect_example :
    let (db', r) = assign_next_delivery_to_slot unlocked yard 1 7 2 100 in
    ((r ≡ none) × (db' ≡ yard))
    ⊎ ((slot : Slot) × (next : Delivery) × (a : AssignResult) × (find_slot 1 yard ≡ some slot)
        × (r ≡ some a)
        × IsOpen yard slot 7
        × IsNext unlocked yard slot
            (slot_unit_config_id slot yard)
            (candidate_goods_for_slot slot)
            next
        × (find_delivery next.id db' ≡ some (mark_called slot.id 100 next))
        × ((j : ℕ) → occupancy j db' ≡ occupancy j yard + bit (j == slot.id))
        × (count_by is_waiting db'.deliveries + 1 ≡ count_by is_waiting yard.deliveries)
        × IsConsistent db')
assign_next_delivery_to_slot_effect_example =
    assign_next_delivery_to_slot_effect unlocked yard 1 7 2 100 yard-IsConsistent

abbrev orders : CodeOrders
orders = record { code_before = ltb; locale_before = ltb }

abbrev everywhere : Scope
everywhere = record { unit_config_id = none; business_location_id = none }

abbrev never : ℕ → ℕ → Bool
never k i = false

abbrev clock : ℕ → ℕ
clock k = 100 + k

trigger_auto_assign_ends_example :
    (db' : Db) × (n : ℕ) × (trigger_auto_assign never clock 2 orders 9 yard 7 everywhere
      ≡ some (db', n))
    × IsConsistent db'
    × (n + waiting_count db' ≡ waiting_count yard)
    × Drained never clock 2 n db' 7 everywhere
unfolding delivery_driver_manageme.Base.count_by
trigger_auto_assign_ends_example =
    trigger_auto_assign_ends never clock 2 orders 9 yard 7 everywhere yard-IsConsistent
      (omega arith)
