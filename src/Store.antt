-- ===== src/Store.antt =====
-- The database that a transaction reads and writes, and the joins `slot.zone.unitConfig`.
-- A `$transaction` is a function on this state: its row locks make concurrent ones serial.
use delivery_driver_manageme.Base.{
  ◌==◌, ◌≡◌, false, All, ℕ, Option, none, some, List, ◌∷◌, find_row, update_row, Unique,
}
use delivery_driver_manageme.Schema.{
  UnitConfig, Zone, Slot, Delivery, AutoWarehouseVendor, TicketSequence, HistoryEvent,
  DeliveryHistory, RegistrationSequence,
}

pub record Db : Type 0 where
  pub unit_configs : List UnitConfig
  pub zones : List Zone
  pub slots : List Slot
  pub deliveries : List Delivery
  pub vendors : List AutoWarehouseVendor
  pub ticket_sequences : List TicketSequence
  pub events : List HistoryEvent
  pub histories : List DeliveryHistory
  pub registration_sequences : List RegistrationSequence

abbrev pub delivery_id : Delivery → ℕ
delivery_id d = d.id

abbrev pub slot_id : Slot → ℕ
slot_id s = s.id

-- `deliveryRegistration.findUnique({ where: { id } })`
abbrev pub find_delivery : ℕ → Db → Option Delivery
find_delivery i db = find_row delivery_id i db.deliveries

-- `slot.findUnique({ where: { id } })`
abbrev pub find_slot : ℕ → Db → Option Slot
find_slot i db = find_row slot_id i db.slots

abbrev pub find_unit_config : ℕ → Db → Option UnitConfig
find_unit_config i db = find_row (λ (u : UnitConfig). u.id) i db.unit_configs

-- `deliveryRegistration.update`, `updatedAt` set by the caller's `f`.
abbrev pub update_delivery : ℕ → (Delivery → Delivery) → Db → Db
update_delivery i f db = record db { deliveries = update_row delivery_id i f db.deliveries }

-- `slot.update`
abbrev pub update_slot : ℕ → (Slot → Slot) → Db → Db
update_slot i f db = record db { slots = update_row slot_id i f db.slots }

-- `slot.update({ data: { lastUsedAt } })`
abbrev pub mark_used : ℕ → Slot → Slot
mark_used now s = record s { last_used_at = some now }

-- `deliveryHistoryEvent.create`
abbrev pub add_event : HistoryEvent → Db → Db
add_event e db = record db { events = e ∷ db.events }

abbrev zone_unit_config_id : Option Zone → Option ℕ
zone_unit_config_id none = none
zone_unit_config_id (some z) = some z.unit_config_id

-- `slot.zone.unitConfigId`
unfoldable pub slot_unit_config_id : Slot → Db → Option ℕ
slot_unit_config_id s db = zone_unit_config_id (find_row (λ (z : Zone). z.id) s.zone_id db.zones)

-- The unit configuration that a nullable id names.
unfoldable pub config_of : Option ℕ → Db → Option UnitConfig
config_of none db = none
config_of (some i) db = find_unit_config i db

abbrev pub location_of : Option UnitConfig → Option ℕ
location_of none = none
location_of (some u) = some u.business_location_id

-- `slot.zone.unitConfig.businessLocationId`
unfoldable pub slot_location_id : Slot → Db → Option ℕ
slot_location_id s db = location_of (config_of (slot_unit_config_id s db) db)

-- Primary keys, and that no slot's id is the empty text.
pub record IsKeyed (db : Db) : Type 0 where
  pub deliveries_unique : Unique delivery_id db.deliveries
  pub slots_unique : Unique slot_id db.slots
  pub slots_named : All (λ s. (s.id == 0) ≡ false) db.slots

-- `SocketScope`, as far as the modelled code reads it.
pub record Scope : Type 0 where
  pub unit_config_id : Option ℕ
  pub business_location_id : Option ℕ
