-- ===== src/Examples/Hours.antt =====
-- The theorem on the capacity of a day, for a unit that receives in two windows.
use delivery_driver_manageme.Base.{
  ℕ, ◌*◌, ◌≡◌, refl, true, false, some, none, List, [], ◌∷◌, length, select, arith,
}
use delivery_driver_manageme.Schema.{GoodsType, VehicleType}
use delivery_driver_manageme.TimeSlots.{
  DeliveryTimeWindow, SlotLimits, WindowArgs, TimeSlot, list_enabled_capacity_windows,
  estimate_daily_capacity, get_registration_daily_capacity, available_slots,
}
use delivery_driver_manageme.TimeSlots.Laws.{get_registration_daily_capacity-available_slots}

abbrev window : ℕ → ℕ → DeliveryTimeWindow
window start end = record {
  unit = 7;
  unit_config_id = some 1;
  goods_type = GoodsType.fresh_food;
  unit_goods_type_id = none;
  label = none;
  start_time = record { hours = start; minutes = 0 };
  end_time = record { hours = end; minutes = 10 };
  enabled = true;
}

abbrev opening : List DeliveryTimeWindow
opening = window 8 10 ∷ window 13 14 ∷ []

abbrev limits : SlotLimits
limits = record {
  truck_slot_minutes = 30;
  motorbike_slot_minutes = 15;
  truck_max_per_slot = 2;
  motorbike_max_per_slot = 3;
}

-- Windows of the kind of goods 9 are missing, so those of the type of goods count.
abbrev asked : WindowArgs
asked = record {
  unit_config_id = 1;
  unit = 7;
  goods_type = GoodsType.fresh_food;
  unit_goods_type_id = some 9;
}

opened : list_enabled_capacity_windows opening asked ≡ opening
unfolding list_enabled_capacity_windows select
opened = refl

get_registration_daily_capacity-available_slots_example :
    (slots : List TimeSlot) × (available_slots
        (λ _. 1)
        (λ _. false)
        30
        4
        (list_enabled_capacity_windows opening asked)
      ≡ some slots)
    × (estimate_daily_capacity (list_enabled_capacity_windows opening asked) 30 2
        ≡ length slots * 2)
    × (get_registration_daily_capacity (λ _. some limits) opening asked VehicleType.truck
        ≡ some (length slots * 2))
get_registration_daily_capacity-available_slots_example =
    get_registration_daily_capacity-available_slots (λ _. some limits) opening asked
      VehicleType.truck limits (λ _. 1) (λ _. false) 4 (window 8 10) (window 13 14 ∷ []) refl
      (omega arith) (omega arith) opened
