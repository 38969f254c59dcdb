-- ===== src/TimeSlots.antt =====
-- backend/src/modules/units/unitService.ts: listEnabledCapacityWindows, estimateDailyCapacity and the loop
-- of getAvailableSlots; backend/src/modules/deliveries/deliveryRepository.ts: getRegistrationDailyCapacity.
-- A time of day is its hours and minutes, as the form of a unit requires. Minutes per slot are at least 5
-- by that form; the source's quotient by zero is not modelled.
pub mod Laws
use delivery_driver_manageme.Base.{
  ℕ, zero, suc, ◌+◌, ◌-◌, ◌*◌, ◌/◌, ◌==◌, ltb, leb, Bool, true, false, not, ◌&&◌, ◌||◌,
  if◌then◌else◌, is_truthy, same, Option, none, some, List, [], ◌∷◌, ◌++◌, select, ◌===◌,
}
use delivery_driver_manageme.Schema.{GoodsType, goods_eq, VehicleType, vehicle_eq}

pub record ClockTime : Type 0 where
  pub hours : ℕ
  pub minutes : ℕ

-- `model DeliveryTimeWindow`
pub record DeliveryTimeWindow : Type 0 where
  pub unit : ℕ
  pub unit_config_id : Option ℕ
  pub goods_type : GoodsType
  pub unit_goods_type_id : Option ℕ
  pub label : Option ℕ
  pub start_time : ClockTime
  pub end_time : ClockTime
  pub enabled : Bool

-- The columns of a unit that `getRegistrationDailyCapacity` selects.
pub record SlotLimits : Type 0 where
  pub truck_slot_minutes : ℕ
  pub motorbike_slot_minutes : ℕ
  pub truck_max_per_slot : ℕ
  pub motorbike_max_per_slot : ℕ

unfoldable pub time_to_minutes : ClockTime → ℕ
time_to_minutes time = time.hours * 60 + time.minutes

abbrev pub minutes_per_slot : SlotLimits → VehicleType → ℕ
minutes_per_slot c vehicle =
    if vehicle === VehicleType.motorbike then c.motorbike_slot_minutes else c.truck_slot_minutes

abbrev pub max_per_slot_of : SlotLimits → VehicleType → ℕ
max_per_slot_of c vehicle =
    if vehicle === VehicleType.motorbike then c.motorbike_max_per_slot else c.truck_max_per_slot

-- What both queries of the windows ask for.
pub record WindowArgs : Type 0 where
  pub unit_config_id : ℕ
  pub unit : ℕ
  pub goods_type : GoodsType
  pub unit_goods_type_id : Option ℕ

-- The windows of the unit's own kind of goods.
abbrev is_of_goods_type : Option ℕ → DeliveryTimeWindow → Bool
is_of_goods_type i w = same w.unit_goods_type_id i && w.enabled

abbrev is_fallback : WindowArgs → DeliveryTimeWindow → Bool
is_fallback args w =
    same w.unit_config_id (some args.unit_config_id)
    && w.unit == args.unit
    && w.goods_type === args.goods_type
    && same w.unit_goods_type_id none
    && w.enabled

abbrev or_fallback : List DeliveryTimeWindow → List DeliveryTimeWindow → List DeliveryTimeWindow
or_fallback [] fallback = fallback
or_fallback (w ∷ ws) fallback = w ∷ ws

unfoldable pub list_enabled_capacity_windows :
    List DeliveryTimeWindow → WindowArgs → List DeliveryTimeWindow
list_enabled_capacity_windows windows args =
    let fallback = select (is_fallback args) windows in
    if is_truthy args.unit_goods_type_id
    then or_fallback (select (is_of_goods_type args.unit_goods_type_id) windows) fallback
    else fallback

-- The quotient of a negative difference is negative, and `Math.max` makes it 0.
unfoldable pub slot_count : ℕ → DeliveryTimeWindow → ℕ
slot_count slot_minutes w =
    (time_to_minutes w.end_time - time_to_minutes w.start_time) / slot_minutes

-- The `reduce` of the estimate.
unfoldable pub total_capacity : ℕ → ℕ → ℕ → List DeliveryTimeWindow → ℕ
total_capacity slot_minutes max_per_slot total [] = total
total_capacity slot_minutes max_per_slot total (w ∷ ws) =
    total_capacity slot_minutes max_per_slot (total + slot_count slot_minutes w * max_per_slot) ws

unfoldable pub estimate_daily_capacity : List DeliveryTimeWindow → ℕ → ℕ → ℕ
estimate_daily_capacity windows slot_minutes max_per_slot =
    if slot_minutes == 0 || max_per_slot == 0
    then 0
    else total_capacity slot_minutes max_per_slot 0 windows

abbrev unless_empty : List DeliveryTimeWindow → ℕ → Option ℕ
unless_empty [] capacity = none
unless_empty (w ∷ ws) capacity = some capacity

-- The queries of `getRegistrationDailyCapacity`, written on their own in the source.
abbrev registration_fallback : WindowArgs → DeliveryTimeWindow → Bool
registration_fallback args w =
    same w.unit_config_id (some args.unit_config_id)
    && w.unit == args.unit
    && w.goods_type === args.goods_type
    && same w.unit_goods_type_id none
    && w.enabled

abbrev registration_own : Option ℕ → DeliveryTimeWindow → Bool
registration_own i w = same w.unit_goods_type_id i && w.enabled

unfoldable pub first_windows : List DeliveryTimeWindow → WindowArgs → List DeliveryTimeWindow
first_windows windows args =
    if is_truthy args.unit_goods_type_id
    then select (registration_own args.unit_goods_type_id) windows
    else select (registration_fallback args) windows

abbrev is_without : List DeliveryTimeWindow → Bool
is_without [] = true
is_without (w ∷ ws) = false

unfoldable pub registration_windows : List DeliveryTimeWindow → WindowArgs → List DeliveryTimeWindow
registration_windows windows args =
    let found = first_windows windows args in
    if is_without found && is_truthy args.unit_goods_type_id
    then select (registration_fallback args) windows
    else found

unfoldable pub registration_total : ℕ → ℕ → ℕ → List DeliveryTimeWindow → ℕ
registration_total slot_minutes max_per_slot total [] = total
registration_total slot_minutes max_per_slot total (w ∷ ws) =
    let slots = (time_to_minutes w.end_time - time_to_minutes w.start_time) / slot_minutes in
    registration_total slot_minutes max_per_slot (total + slots * max_per_slot) ws

-- `limits` reads a unit by its id.
unfoldable pub get_registration_daily_capacity :
    (ℕ → Option SlotLimits) → List DeliveryTimeWindow → WindowArgs → VehicleType → Option ℕ
get_registration_daily_capacity limits windows args vehicle = elim (limits args.unit_config_id) [
  | none ↦ none
  | some c ↦
      let found = registration_windows windows args in
      unless_empty found
        (registration_total (minutes_per_slot c vehicle) (max_per_slot_of c vehicle) 0 found)
]

-- A slot that a driver may choose; its time is in minutes.
pub record TimeSlot : Type 0 where
  pub time : ℕ
  pub booked : ℕ
  pub max_per_slot : ℕ
  pub available : Bool
  pub is_past : Bool
  pub window_label : Option ℕ

-- `booked` counts the bookings at a time, `past` tells whether a time is past.
module _ (booked : ℕ → ℕ) (past : ℕ → Bool) (slot_minutes max_per_slot : ℕ) where
  unfoldable pub time_slot : Option ℕ → ℕ → TimeSlot
  time_slot label cur = record {
    time = cur;
    booked = booked cur;
    max_per_slot = max_per_slot;
    available = not (past cur) && ltb (booked cur) max_per_slot;
    is_past = past cur;
    window_label = label;
  }

  abbrev prepend : TimeSlot → Option (List TimeSlot) → Option (List TimeSlot)
  prepend s none = none
  prepend s (some rest) = some (s ∷ rest)

  -- The `while` loop, on fuel.
  unfoldable pub slots_from : ℕ → Option ℕ → ℕ → ℕ → Option (List TimeSlot)
  slots_from zero label cur end_mins = none
  slots_from (suc fuel) label cur end_mins =
      let rest = slots_from fuel label (cur + slot_minutes) end_mins in
      if leb (cur + slot_minutes) end_mins then prepend (time_slot label cur) rest else some []

  abbrev join : Option (List TimeSlot) → Option (List TimeSlot) → Option (List TimeSlot)
  join none later = none
  join (some slots) none = none
  join (some slots) (some later) = some (slots ++ later)

  -- The `for` loop over the windows. The fuel is one more than the last minute.
  unfoldable pub available_slots : List DeliveryTimeWindow → Option (List TimeSlot)
  available_slots [] = some []
  available_slots (w ∷ ws) =
      join
        (slots_from (suc (time_to_minutes w.end_time)) w.label (time_to_minutes w.start_time)
          (time_to_minutes w.end_time))
        (available_slots ws)
