-- ===== src/History.antt =====
-- backend/src/modules/history/historyService.ts and historyRepository.ts: the events of a delivery.
-- The JSON metadata of an event is not modelled.
use delivery_driver_manageme.Base.{
  ℕ, Bool, if◌then◌else◌, is_truthy, Option, none, some, List, [], ◌∷◌, ltb, ◌==◌, ◌&&◌, includes,
  count_by, select, first_by,
}
use delivery_driver_manageme.Schema.{
  DeliveryStatus, EventType, auto_assigned, manual_called, recalled, reassigned_slot, event_eq,
  Slot, Delivery, Message, Actor, HistoryEvent, UnitConfig,
}
use delivery_driver_manageme.Store.{
  Db, find_slot, add_event, slot_unit_config_id, slot_location_id, config_of, location_of,
}

-- `HistoryScope & HistorySlotSnapshot`
pub record DeliveryScope : Type 0 where
  pub business_location_id : Option ℕ
  pub unit_config_id : Option ℕ
  pub slot_id : Option ℕ
  pub slot_code : Option ℕ
  pub slot_name : Option ℕ

abbrev slot_at : Option ℕ → Db → Option Slot
slot_at none db = none
slot_at (some i) db = find_slot i db

slot_scope : Slot → Db → DeliveryScope
slot_scope s db = record {
  business_location_id = slot_location_id s db;
  unit_config_id = slot_unit_config_id s db;
  slot_id = some s.id;
  slot_code = some s.code;
  slot_name = some s.name;
}

abbrev config_id : Option UnitConfig → Option ℕ
config_id none = none
config_id (some u) = some u.id

config_scope : Option UnitConfig → DeliveryScope
config_scope u = record {
  business_location_id = location_of u;
  unit_config_id = config_id u;
  slot_id = none;
  slot_code = none;
  slot_name = none;
}

pub resolve_delivery_scope : Db → Option ℕ → Option ℕ → DeliveryScope
resolve_delivery_scope db unit_config_id assigned_slot_id =
    let by_config =
      config_scope (config_of (if is_truthy unit_config_id then unit_config_id else none) db) in
    elim (slot_at (if is_truthy assigned_slot_id then assigned_slot_id else none) db) [
      | none ↦ by_config
      | some s ↦ slot_scope s db
    ]

-- The arguments of `recordDeliveryEvent` beside the delivery.
pub record EventArgs : Type 0 where
  pub actor : Actor
  pub event_type : EventType
  pub from_status : Option DeliveryStatus
  pub to_status : Option DeliveryStatus
  pub occurred_at : ℕ
  pub message : Option Message
  pub reason : Option ℕ
  pub slot : Option Slot

-- `args.slot?.id ?? delivery.assignedSlotId`
abbrev event_slot_id : Option Slot → Delivery → Option ℕ
event_slot_id none d = d.assigned_slot_id
event_slot_id (some s) d = some s.id

abbrev with_slot : Option Slot → DeliveryScope → DeliveryScope
with_slot none scope = scope
with_slot (some s) scope = record scope {
  slot_id = some s.id;
  slot_code = some s.code;
  slot_name = some s.name;
}

unfoldable pub history_event : Db → Delivery → EventArgs → HistoryEvent
history_event db d args =
    let scope =
      with_slot args.slot
        (resolve_delivery_scope db d.unit_config_id (event_slot_id args.slot d)) in
    record {
      delivery_history_id = none;
      delivery_registration_id = some d.id;
      original_delivery_id = d.id;
      registration_code = d.registration_code;
      business_location_id = scope.business_location_id;
      unit_config_id = scope.unit_config_id;
      event_type = args.event_type;
      from_status = args.from_status;
      to_status = args.to_status;
      occurred_at = args.occurred_at;
      actor = args.actor;
      slot_id = scope.slot_id;
      slot_code = scope.slot_code;
      slot_name = scope.slot_name;
      message = args.message;
      reason = args.reason;
    }

abbrev pub record_delivery_event : Delivery → EventArgs → Db → Db
record_delivery_event d args db = add_event (history_event db d args) db

abbrev pub call_event_types : List EventType
call_event_types = auto_assigned ∷ manual_called ∷ recalled ∷ reassigned_slot ∷ []

unfoldable pub is_call_of : ℕ → HistoryEvent → Bool
is_call_of i e = e.original_delivery_id == i && includes call_event_types e.event_type

unfoldable pub count_call_history_events : ℕ → Db → ℕ
count_call_history_events i db = count_by (is_call_of i) db.events

unfoldable pub get_last_call_history_event : ℕ → Db → Option HistoryEvent
get_last_call_history_event i db =
    first_by (λ a b. ltb b.occurred_at a.occurred_at) (select (is_call_of i) db.events)
