-- ===== src/Schema/Rows.antt =====
-- The rows of the tables (backend/prisma/schema.prisma), without the columns that no modelled code
-- reads: names, phone numbers, purchase orders, logos.
-- Identifiers and texts that the code only compares are numbers, 0 the empty text. Dates are
-- milliseconds.
use delivery_driver_manageme.Base.{ℕ, Bool, Option, List}
use delivery_driver_manageme.Schema.Enums.{
  DeliveryStatus, SlotStatus, GoodsType, VehicleType, EventType, ActorType, FinalStatus,
}

-- A text whose characters the code looks at.
abbrev pub Text : Type 0
Text = List ℕ

pub record UnitConfig : Type 0 where
  pub id : ℕ
  pub unit : ℕ
  pub business_location_id : ℕ
  pub is_active : Bool
  pub auto_cancel_called_enabled : Bool
  pub auto_cancel_called_after_minutes : ℕ

pub record Zone : Type 0 where
  pub id : ℕ
  pub code : ℕ
  pub unit_config_id : ℕ

pub record Slot : Type 0 where
  pub id : ℕ
  pub code : ℕ
  pub name : ℕ
  pub assigned_unit : ℕ
  pub vehicle_type : VehicleType
  pub accepted_goods : List GoodsType
  pub goods_priority : List GoodsType
  pub auto_assign : Bool
  pub max_capacity : ℕ
  pub status : SlotStatus
  pub is_active : Bool
  pub current_delivery_id : Option ℕ
  pub last_used_at : Option ℕ
  pub zone_id : ℕ

pub record Delivery : Type 0 where
  pub id : ℕ
  pub registration_code : Text
  pub vehicle_plate : Text
  pub receiving_unit : ℕ
  pub unit_config_id : Option ℕ
  pub goods_type : GoodsType
  pub original_goods_type : Option GoodsType
  pub vendor_code : Option Text
  pub requested_time : Option ℕ
  pub checkin_time : Option ℕ
  pub called_time : Option ℕ
  pub receiving_start_time : Option ℕ
  pub completed_time : Option ℕ
  pub status : DeliveryStatus
  pub assigned_slot_id : Option ℕ
  pub vehicle_type : VehicleType
  pub auto_warehouse : Bool
  pub ticket_number : Option ℕ
  pub note : Option ℕ
  pub cancel_reason : Option ℕ
  pub created_at : ℕ
  pub updated_at : ℕ

pub record AutoWarehouseVendor : Type 0 where
  pub id : ℕ
  pub vendor_code : Text
  pub unit : ℕ
  pub unit_config_id : Option ℕ
  pub active : Bool

pub record TicketSequence : Type 0 where
  pub ticket_date : ℕ
  pub receiving_unit : ℕ
  pub vehicle_type : VehicleType
  pub next_number : ℕ

-- The messages of the history: a template with the texts that it quotes.
pub data Message : Type 0 where
  registered checked_in completed cancelled receiving_started : Message
  auto_invite : Text → ℕ → Message
  invite : Text → ℕ → Message
  other : ℕ → Message

pub record Actor : Type 0 where
  pub actor_type : Option ActorType
  pub actor_id : Option ℕ
  pub actor_label : Option ℕ

pub record HistoryEvent : Type 0 where
  pub delivery_history_id : Option ℕ
  pub delivery_registration_id : Option ℕ
  pub original_delivery_id : ℕ
  pub registration_code : Text
  pub business_location_id : Option ℕ
  pub unit_config_id : Option ℕ
  pub event_type : EventType
  pub from_status : Option DeliveryStatus
  pub to_status : Option DeliveryStatus
  pub occurred_at : ℕ
  pub actor : Actor
  pub slot_id : Option ℕ
  pub slot_code : Option ℕ
  pub slot_name : Option ℕ
  pub message : Option Message
  pub reason : Option ℕ

pub record RegistrationSequence : Type 0 where
  pub registration_date : ℕ
  pub receiving_unit : ℕ
  pub unit_config_id : Option ℕ
  pub next_number : ℕ

-- A closed delivery, one row for each original delivery.
pub record DeliveryHistory : Type 0 where
  pub id : ℕ
  pub original_delivery_id : ℕ
  pub registration_code : Text
  pub business_location_id : Option ℕ
  pub unit_config_id : Option ℕ
  pub receiving_unit : ℕ
  pub vendor_code : Option Text
  pub vehicle_plate : Text
  pub goods_type : GoodsType
  pub vehicle_type : VehicleType
  pub auto_warehouse : Bool
  pub requested_time : Option ℕ
  pub registered_at : ℕ
  pub checkin_time : Option ℕ
  pub called_time : Option ℕ
  pub receiving_start_time : Option ℕ
  pub completed_time : Option ℕ
  pub final_status : FinalStatus
  pub close_reason : Option ℕ
  pub ticket_number : Option ℕ
  pub assigned_slot_id : Option ℕ
  pub assigned_slot_code : Option ℕ
  pub assigned_slot_name : Option ℕ
  pub call_count : ℕ
  pub last_called_at : Option ℕ
  pub cancelled_at : Option ℕ
  pub expired_at : Option ℕ
  pub archived_at : ℕ
  pub archived_by_job_run_id : Option ℕ
  pub duration_waiting_minutes : Option ℕ
  pub duration_receiving_minutes : Option ℕ
  pub note : Option ℕ
