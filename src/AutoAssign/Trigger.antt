-- ===== src/AutoAssign/Trigger.antt =====
-- The loop of `triggerAutoAssign`.
use delivery_driver_manageme.Base.{
  ℕ, zero, suc, ◌+◌, ◌-◌, ◌==◌, ltb, Bool, not, ◌&&◌, ◌||◌, is_truthy, same, Option, none, some,
  List, [], ◌∷◌, select, sort_by,
}
use delivery_driver_manageme.Schema.{Slot}
use delivery_driver_manageme.Store.{Db, Scope, slot_unit_config_id, slot_location_id}
use delivery_driver_manageme.SlotState.{occupancy, is_manual_slot_status}
use delivery_driver_manageme.AutoAssign.{AssignResult, assign_next_delivery_to_slot}

-- `zone: { unitConfigId, unitConfig: { businessLocationId } }`, each part only if it is given.
unfoldable pub slot_in_scope : Db → Scope → Slot → Bool
slot_in_scope db scope s =
    (not (is_truthy scope.unit_config_id) || same (slot_unit_config_id s db) scope.unit_config_id)
    && (not (is_truthy scope.business_location_id)
        || same (slot_location_id s db) scope.business_location_id)

-- The `where` of the slot query.
unfoldable pub is_listed : Db → ℕ → Scope → Slot → Bool
is_listed db unit scope s =
    s.assigned_unit == unit
    && s.is_active
    && s.auto_assign
    && not (is_manual_slot_status s.status)
    && slot_in_scope db scope s

unfoldable pub remaining : Db → Slot → ℕ
remaining db s = s.max_capacity - occupancy s.id db

-- Two orders on the codes of slots: the database's collation and `localeCompare`.
pub record CodeOrders : Type 0 where
  pub code_before : ℕ → ℕ → Bool
  pub locale_before : ℕ → ℕ → Bool

-- Most room first, then by code.
unfoldable pub candidate_slots : CodeOrders → Db → ℕ → Scope → List Slot
candidate_slots orders db unit scope =
    sort_by
      (λ a b.
        ltb (remaining db b) (remaining db a)
        || remaining db a == remaining db b && orders.locale_before a.code b.code)
      (select (λ s. ltb (occupancy s.id db) s.max_capacity)
        (sort_by (λ a b. orders.code_before a.code b.code)
          (select (is_listed db unit scope) db.slots)))

-- Round `k` of the loop passes over the rows in `locked k`, and writes the time `clock k`.
module _ (locked : ℕ → ℕ → Bool) (clock : ℕ → ℕ) (label : ℕ) where
  -- The inner loop: the first slot that takes a delivery ends the round.
  unfoldable pub assign_round : ℕ → Db → ℕ → List Slot → Db × Option AssignResult
  assign_round k db unit [] = (db, none)
  assign_round k db unit (s ∷ rest) =
      let (db', r) = assign_next_delivery_to_slot (locked k) db s.id unit label (clock k) in
      elim r [ none ↦ assign_round k db' unit rest | some a ↦ (db', some a) ]

  -- The outer loop on fuel: each round but the last assigns one delivery, so `called` numbers them.
  unfoldable pub trigger_from : CodeOrders → ℕ → Db → ℕ → Scope → ℕ → Option (Db × ℕ)
  trigger_from orders zero db unit scope called = none
  trigger_from orders (suc fuel) db unit scope called =
      let (db', r) = assign_round called db unit (candidate_slots orders db unit scope) in
      elim r [
        | none ↦ some (db', called)
        | some a ↦ trigger_from orders fuel db' unit scope (called + 1)
      ]

  unfoldable pub trigger_auto_assign : CodeOrders → ℕ → Db → ℕ → Scope → Option (Db × ℕ)
  trigger_auto_assign orders fuel db unit scope = trigger_from orders fuel db unit scope 0
