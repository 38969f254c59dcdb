-- ===== src/Examples.antt =====
-- A small yard, and each theorem that has conditions applied to it.
mod Calls
mod Closing
mod Entry
mod Flow
mod Hours
mod Operators
mod Receptions
mod Registering
use delivery_driver_manageme.Base.{
  ℕ, ◌≡◌, refl, ◌<◌, ◌≤◌, Bool, true, false, none, some, List, [], ◌∷◌, All, arith, Unique,
}
use delivery_driver_manageme.Schema.{
  DeliveryStatus, waiting, called, fresh_food, general_goods, truck, UnitConfig, Zone, Slot,
  available, Delivery, AutoWarehouseVendor, TicketSequence, Actor, user,
}
use delivery_driver_manageme.Store.{
  Db, IsKeyed, Scope, delivery_id, slot_id, find_delivery, find_slot,
}
use delivery_driver_manageme.SlotState.{occupancy, is_active_at}
use delivery_driver_manageme.SlotState.Laws.{IsSettled}
use delivery_driver_manageme.Consistency.{IsConsistent, IsWithin}

abbrev pub unit_1 : UnitConfig
unit_1 = record {
  id = 1;
  unit = 7;
  business_location_id = 5;
  is_active = true;
  auto_cancel_called_enabled = true;
  auto_cancel_called_after_minutes = 30;
}

-- A slot for two trucks, which prefers fresh food.
abbrev pub slot_1 : Slot
slot_1 = record {
  id = 1;
  code = 11;
  name = 12;
  assigned_unit = 7;
  vehicle_type = truck;
  accepted_goods = [];
  goods_priority = fresh_food ∷ [];
  auto_assign = true;
  max_capacity = 2;
  status = available;
  is_active = true;
  current_delivery_id = some 21;
  last_used_at = none;
  zone_id = 1;
}

abbrev pub truck_of : ℕ → DeliveryStatus → Delivery
truck_of i s = record {
  id = i;
  registration_code = i ∷ [];
  vehicle_plate = i ∷ [];
  receiving_unit = 7;
  unit_config_id = some 1;
  goods_type = general_goods;
  original_goods_type = none;
  vendor_code = none;
  requested_time = none;
  checkin_time = none;
  called_time = none;
  receiving_start_time = none;
  completed_time = none;
  status = s;
  assigned_slot_id = none;
  vehicle_type = truck;
  auto_warehouse = false;
  ticket_number = none;
  note = none;
  cancel_reason = none;
  created_at = i;
  updated_at = i;
}

abbrev pub truck_21 : Delivery
truck_21 = record (truck_of 21 called) {
  assigned_slot_id = some 1;
  called_time = some 90000000;
  checkin_time = some 90000000;
  ticket_number = some 1;
}

abbrev pub truck_22 : Delivery
truck_22 = record (truck_of 22 waiting) { checkin_time = some 90000001; ticket_number = some 2 }

abbrev pub truck_23 : Delivery
truck_23 = truck_of 23 DeliveryStatus.registered

abbrev pub yard : Db
yard = record {
  unit_configs = unit_1 ∷ [];
  zones = record { id = 1; code = 1; unit_config_id = 1 } ∷ [];
  slots = slot_1 ∷ [];
  deliveries = truck_21 ∷ truck_22 ∷ truck_23 ∷ [];
  vendors = [];
  ticket_sequences = [];
  events = [];
  histories = [];
  registration_sequences = [];
}

abbrev pub staff : Actor
staff = record { actor_type = some user; actor_id = some 3; actor_label = some 4 }

pub yard-IsConsistent : IsConsistent yard
unfolding is_active_at delivery_driver_manageme.Base.count_by delivery_driver_manageme.Base.any
yard-IsConsistent = record {
  keyed = record {
    deliveries_unique = (refl, (refl, (refl, tt)));
    slots_unique = (refl, tt);
    slots_named = (refl, tt);
  };
  settled = (((λ e. cc), (λ e. omega arith)), tt);
  within = (omega arith, tt);
}

pub find_21 : find_delivery 21 yard ≡ some truck_21
unfolding delivery_driver_manageme.Base.find_by
find_21 = refl

pub find_23 : find_delivery 23 yard ≡ some truck_23
unfolding delivery_driver_manageme.Base.find_by
find_23 = refl

pub find_slot_1 : find_slot 1 yard ≡ some slot_1
unfolding delivery_driver_manageme.Base.find_by
find_slot_1 = refl
