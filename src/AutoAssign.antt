-- ===== src/AutoAssign.antt =====
-- backend/src/services/autoAssign.ts: waiting deliveries are called into slots with room.
-- `locked` are the rows that other transactions hold, which `SKIP LOCKED` passes over.
pub mod Choice
pub mod Goods
pub mod Effects
pub mod Trigger
pub mod Progress
use delivery_driver_manageme.Base.{
  ℕ, suc, ◌+◌, ◌-◌, ◌==◌, ltb, leb, Bool, true, false, not, ◌&&◌, ◌||◌, if◌then◌else◌, is_truthy,
  same, Option, none, some, List, [], ◌∷◌, ◌++◌, length, select, first_by, includes, ◌===◌,
  distinct, sort_by,
}
use delivery_driver_manageme.Schema.{
  DeliveryStatus, waiting, called, status_eq, GoodsType, fresh_food, auto_warehouse, general_goods,
  thi_cong, goods_eq, vehicle_eq, EventType, auto_assigned, Slot, Delivery, Actor, system, Message,
  auto_invite,
}
use delivery_driver_manageme.Store.{
  Db, find_delivery, find_slot, update_delivery, update_slot, mark_used, slot_unit_config_id,
  slot_location_id,
}
use delivery_driver_manageme.SlotState.{
  occupancy, is_manual_slot_status, reconcile_slot_state, SlotStateSnapshot,
}
use delivery_driver_manageme.History.{record_delivery_event}

abbrev pub default_goods_priority : List GoodsType
default_goods_priority = fresh_food ∷ general_goods ∷ thi_cong ∷ auto_warehouse ∷ []

abbrev or_default : List GoodsType → List GoodsType
or_default [] = default_goods_priority
or_default (g ∷ gs) = g ∷ gs

-- An empty `acceptedGoods` accepts all goods.
unfoldable pub allowed_goods : Slot → List GoodsType
allowed_goods slot = or_default slot.accepted_goods

unfoldable pub candidate_goods_for_slot : Slot → List GoodsType
candidate_goods_for_slot slot =
    let allowed = allowed_goods slot in
    distinct (
      select (λ g. includes allowed g) slot.goods_priority
      ++ select (λ g. not (includes slot.goods_priority g)) allowed)

-- `=` of SQL: `NULL` equals nothing.
abbrev pub sql_eq : Option ℕ → Option ℕ → Bool
sql_eq none b = false
sql_eq (some a) b = same (some a) b

-- The `WHERE` clause of `findNextWaitingDeliveryForSlot` for one type of goods.
unfoldable pub is_waiting_for : Slot → Option ℕ → GoodsType → Delivery → Bool
is_waiting_for slot unit_config_id goods d =
    d.receiving_unit == slot.assigned_unit
    && sql_eq d.unit_config_id unit_config_id
    && d.vehicle_type === slot.vehicle_type
    && d.status === waiting
    && d.goods_type === goods

-- `ASC NULLS LAST`
abbrev pub earlier : Option ℕ → Option ℕ → Bool
earlier none b = false
earlier (some a) none = true
earlier (some a) (some b) = ltb a b

-- `ORDER BY "checkin_time" ASC NULLS LAST, "created_at" ASC`
unfoldable pub queue_before : Delivery → Delivery → Bool
queue_before a b =
    earlier a.checkin_time b.checkin_time
    || same a.checkin_time b.checkin_time && ltb a.created_at b.created_at

-- The row that the query for one type of goods locks.
unfoldable pub next_of_goods : (ℕ → Bool) → Db → Slot → Option ℕ → GoodsType → Option Delivery
next_of_goods locked db slot unit_config_id goods =
    first_by queue_before
      (select (λ d. is_waiting_for slot unit_config_id goods d && not (locked d.id)) db.deliveries)

-- The loop of `findNextWaitingDeliveryForSlot`, which reads the locked row again by its id.
unfoldable pub next_of_candidates :
    (ℕ → Bool) → Db → Slot → Option ℕ → List GoodsType → Option Delivery
next_of_candidates locked db slot unit_config_id [] = none
next_of_candidates locked db slot unit_config_id (goods ∷ rest) =
    elim (next_of_goods locked db slot unit_config_id goods) [
      | none ↦ next_of_candidates locked db slot unit_config_id rest
      | some d ↦ find_delivery d.id db
    ]

unfoldable pub find_next_waiting_delivery_for_slot :
    (ℕ → Bool) → Db → Slot → Option ℕ → Option Delivery
find_next_waiting_delivery_for_slot locked db slot unit_config_id =
    next_of_candidates locked db slot unit_config_id (candidate_goods_for_slot slot)

pub record AssignResult : Type 0 where
  pub delivery : Delivery
  pub slot : Slot
  pub message : Message
  pub active_count : ℕ

abbrev still_waiting : Option Delivery → Option Delivery
still_waiting none = none
still_waiting (some d) = if not (d.status === waiting) then none else some d

-- The guards of `assignNextDeliveryToSlot`, and the delivery that passes them.
unfoldable pub choose_delivery : (ℕ → Bool) → Db → Slot → ℕ → Option Delivery
choose_delivery locked db slot unit =
    if not (slot.assigned_unit == unit)
      || not slot.is_active
      || not slot.auto_assign
      || is_manual_slot_status slot.status
    then none
    else if leb slot.max_capacity (occupancy slot.id db)
    then none
    else still_waiting
        (find_next_waiting_delivery_for_slot locked db slot (slot_unit_config_id slot db))

abbrev pub mark_called : ℕ → ℕ → Delivery → Delivery
mark_called slot_id now d = record d {
  called_time = some now;
  status = called;
  assigned_slot_id = some slot_id;
  updated_at = now;
}

-- `if (next.assignedSlotId && next.assignedSlotId !== slot.id) reconcileSlotState(…)`
unfoldable pub reconcile_previous : Option ℕ → ℕ → Db → Db
reconcile_previous none slot_id db = db
reconcile_previous (some i) slot_id db =
    if is_truthy (some i) && not (i == slot_id) then (reconcile_slot_state db i true).0 else db

-- `systemActor('auto-assign')`: the label is a text, here a number.
abbrev pub auto_assign_actor : ℕ → Actor
auto_assign_actor label = record {
  actor_type = some system;
  actor_id = none;
  actor_label = some label;
}

abbrev snapshot_slot : Option SlotStateSnapshot → Slot → Slot
snapshot_slot none s = s
snapshot_slot (some r) s = r.slot

abbrev snapshot_count : Option SlotStateSnapshot → ℕ → ℕ
snapshot_count none n = n
snapshot_count (some r) n = r.active_count

-- The writes up to the last reconciliation: the delivery, its event and the slot's last use.
unfoldable pub call_into : Db → Slot → Delivery → ℕ → ℕ → Db
call_into db slot next label now =
    let cleared = reconcile_previous next.assigned_slot_id slot.id db in
    let delivery = mark_called slot.id now next in
    let written = update_delivery next.id (mark_called slot.id now) cleared in
    let recorded =
      record_delivery_event delivery
        (record {
          actor = auto_assign_actor label;
          event_type = auto_assigned;
          from_status = some next.status;
          to_status = some delivery.status;
          occurred_at = now;
          message = some (auto_invite next.vehicle_plate slot.code);
          reason = none;
          slot = some slot;
        })
        written in
    update_slot slot.id (mark_used now) recorded

unfoldable pub assign_chosen : Db → Slot → Delivery → ℕ → ℕ → Db × Option AssignResult
assign_chosen db slot next label now =
    let (db', reconciled) = reconcile_slot_state (call_into db slot next label now) slot.id true in
    (
      db',
      some (record {
        delivery = mark_called slot.id now next;
        slot = snapshot_slot reconciled slot;
        message = auto_invite next.vehicle_plate slot.code;
        active_count = snapshot_count reconciled (occupancy slot.id db + 1);
      }),
    )

unfoldable pub assign_next_delivery_to_slot :
    (ℕ → Bool) → Db → ℕ → ℕ → ℕ → ℕ → Db × Option AssignResult
assign_next_delivery_to_slot locked db slot_id unit label now = elim (find_slot slot_id db) [
  | none ↦ (db, none)
  | some slot ↦ elim (choose_delivery locked db slot unit) [
    | none ↦ (db, none)
    | some next ↦ assign_chosen db slot next label now
  ]
]
