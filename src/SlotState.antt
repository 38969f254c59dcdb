-- ===== src/SlotState.antt =====
-- backend/src/services/slotState.ts: the status of a slot follows the deliveries assigned to it.
pub mod Laws
use delivery_driver_manageme.Base.{
  ℕ, ltb, leb, ◌==◌, ◌≡◌, refl, Bool, true, false, not, ◌&&◌, ◌||◌, if◌then◌else◌, same, Option,
  none, some, List, [], ◌∷◌, length, select, count_by, first_by, includes, ◌===◌,
}
use delivery_driver_manageme.Schema.{
  DeliveryStatus, called, receiving, auto_warehouse_receiving, status_eq, SlotStatus, available,
  occupied, reserved, maintenance, slot_status_eq, Slot, Delivery,
}
use delivery_driver_manageme.Store.{Db, find_slot, update_slot}

abbrev pub active_slot_delivery_statuses : List DeliveryStatus
active_slot_delivery_statuses = called ∷ receiving ∷ auto_warehouse_receiving ∷ []

abbrev pub manual_slot_statuses : List SlotStatus
manual_slot_statuses = maintenance ∷ reserved ∷ []

pub record SlotStateSnapshot : Type 0 where
  pub slot : Slot
  pub active_count : ℕ
  pub active_delivery_id : Option ℕ
  pub manual_status : Bool

unfoldable pub is_manual_slot_status : SlotStatus → Bool
is_manual_slot_status status = includes manual_slot_statuses status

-- `where: { assignedSlotId, status: { in: ACTIVE_SLOT_DELIVERY_STATUSES } }`
unfoldable pub is_active_at : ℕ → Delivery → Bool
is_active_at i d =
    same d.assigned_slot_id (some i) && includes active_slot_delivery_statuses d.status

-- The number of deliveries that occupy a slot.
abbrev pub occupancy : ℕ → Db → ℕ
occupancy i db = count_by (is_active_at i) db.deliveries

-- `desc` on a nullable column: nulls come first.
abbrev later : Option ℕ → Option ℕ → Bool
later none none = false
later none (some b) = true
later (some a) none = false
later (some a) (some b) = ltb b a

-- `orderBy: [{ updatedAt: 'desc' }, { calledTime: 'desc' }, { createdAt: 'desc' }]`
unfoldable pub is_newer : Delivery → Delivery → Bool
is_newer a b =
    ltb b.updated_at a.updated_at
    || a.updated_at == b.updated_at
      && (later a.called_time b.called_time
          || same a.called_time b.called_time && ltb b.created_at a.created_at)

abbrev id_of : Option Delivery → Option ℕ
id_of none = none
id_of (some d) = some d.id

unfoldable pub active_delivery_id : ℕ → Db → Option ℕ
active_delivery_id i db = id_of (first_by is_newer (select (is_active_at i) db.deliveries))

unfoldable pub next_status : Slot → ℕ → SlotStatus
next_status slot active_count = if leb slot.max_capacity active_count then occupied else available

-- The data that the two `slot.update` calls of `reconcileSlotState` write.
unfoldable pub settle : Db → Bool → Slot → Slot
settle db preserve_manual_status slot =
    if is_manual_slot_status slot.status && preserve_manual_status
    then record slot { current_delivery_id = active_delivery_id slot.id db }
    else record slot {
      status = next_status slot (occupancy slot.id db);
      current_delivery_id = active_delivery_id slot.id db;
    }

unfoldable pub reconcile_slot_state : Db → ℕ → Bool → Db × Option SlotStateSnapshot
reconcile_slot_state db i preserve_manual_status = elim (find_slot i db) [
  | none ↦ (db, none)
  | some slot ↦ (
    update_slot slot.id (settle db preserve_manual_status) db,
    some (record {
      slot = settle db preserve_manual_status slot;
      active_count = occupancy slot.id db;
      active_delivery_id = active_delivery_id slot.id db;
      manual_status = is_manual_slot_status slot.status;
    }),
  )
]

-- The loop of `reconcileAllSlots` over the selected slots, and the snapshots that it collects.
abbrev push_some : Option SlotStateSnapshot → List SlotStateSnapshot → List SlotStateSnapshot
push_some none rest = rest
push_some (some s) rest = s ∷ rest

unfoldable pub reconcile_each : Db → List ℕ → Bool → Db × List SlotStateSnapshot
reconcile_each db [] preserve = (db, [])
reconcile_each db (i ∷ is) preserve =
    let (db', snapshot) = reconcile_slot_state db i preserve in
    let (db'', rest) = reconcile_each db' is preserve in (db'', push_some snapshot rest)
