-- ===== src/Examples/Registering.antt =====
-- The theorems on registrations, at the small yard.
use delivery_driver_manageme.Base.{
  ℕ, ◌+◌, ◌==◌, ◌≤◌, ◌≡◌, ◌⊎◌, refl, true, false, some, none, [], ◌∷◌, Result, ok, thrown, failed,
  any, count_by, select, find_by, update_by,
}
use delivery_driver_manageme.Schema.{Text, DeliveryStatus, general_goods, truck, Delivery}
use delivery_driver_manageme.Store.{Db, update_delivery, find_delivery, find_unit_config, config_of}
use delivery_driver_manageme.Consistency.{IsConsistent}
use delivery_driver_manageme.CheckIn.{same_text}
use delivery_driver_manageme.Registration.{
  Spelling, starts_with, code_number, registration_code_prefix, format_registration_code,
  normalize_code_segment, reserve_registration_code, upsert_counter, is_counter_of,
}
use delivery_driver_manageme.Registration.Codes.{code_number-format_registration_code}
use delivery_driver_manageme.Registration.Fresh.{IsCounted, IsNew, reserve_registration_code_effect}
use delivery_driver_manageme.Register.{
  RegisterArgs, duplicate_day, is_duplicate, find_duplicate_registration, open_registration,
  is_blocked_by, is_booked, has_capacity, takes_place, is_today, new_delivery, create_delivery,
  registration_data, store_registration, register_delivery,
}
use delivery_driver_manageme.Register.Effects.{register_delivery_effect}
use delivery_driver_manageme.Register.Capacity.{register_delivery_capacity}
use delivery_driver_manageme.Examples.{yard, yard-IsConsistent, unit_1, truck_23}
use delivery_driver_manageme.Examples.Entry.{days, days-IsCalendar}

abbrev spelling : Spelling
spelling = record {
  id_text = λ i. 99 ∷ 109 ∷ (48 + i) ∷ [];
  year = λ key. 50 ∷ 48 ∷ 50 ∷ 54 ∷ [];
  month = λ key. 48 ∷ 49 ∷ [];
  day = λ key. 48 ∷ (48 + key) ∷ [];
  nfd = λ text. text;
  other_number = λ text. none;
}

abbrev place : Text
place = 83 ∷ 71 ∷ []

code_number-format_registration_code_example :
    let prefix = registration_code_prefix spelling place 1 2 in
    let code = format_registration_code spelling place 1 2 17 in
    (starts_with prefix code ≡ true) × (code_number spelling prefix code ≡ some 17)
code_number-format_registration_code_example =
    code_number-format_registration_code spelling place 1 2 17

no_counter : IsCounted days spelling place (days.vn_date_key 90000000) 1 yard
unfolding find_by
no_counter = record { counted = λ q found. cc }

reserve_registration_code_effect_example :
    (n : ℕ) × ((reserve_registration_code days spelling yard 1 place 7 90000000).1
      ≡ format_registration_code spelling place 1 (days.vn_date_key 90000000) n)
    × IsNew days spelling place
        (days.vn_date_key 90000000)
        1
        yard
        (reserve_registration_code days spelling yard 1 place 7 90000000).0
        n
reserve_registration_code_effect_example =
    reserve_registration_code_effect days spelling yard 1 place 7 90000000 no_counter

-- A truck that asks for a place on the day of its registration.
abbrev form : RegisterArgs
form = record {
  vehicle_plate = 53 ∷ 49 ∷ 70 ∷ [];
  vehicle_type = truck;
  receiving_unit = 7;
  goods_type = general_goods;
  original_goods_type = general_goods;
  vendor_code = none;
  requested_time = some 90000500;
  delivery_date = days.vn_date_key 90000000;
  note = none;
  quick = false;
  daily_capacity = some 5;
}

abbrev value_or {ℓ} : {A : Type ℓ} → Result A → A → A
value_or (ok a) other = a
value_or (thrown e) other = other
value_or failed other = other

abbrev answer : Db × Delivery
answer =
    value_or (register_delivery days spelling place 3 unit_1 form 40 90000000 yard) (yard, truck_23)

registered : register_delivery days spelling place 3 unit_1 form 40 90000000 yard ≡ ok answer
unfolding register_delivery store_registration create_delivery find_duplicate_registration
    open_registration is_duplicate has_capacity takes_place is_today is_booked any select find_by
    update_by count_by config_of same_text duplicate_day reserve_registration_code upsert_counter
    is_blocked_by is_counter_of new_delivery format_registration_code registration_code_prefix
    normalize_code_segment
registered = refl

find_unit_1 : find_unit_config 1 yard ≡ some unit_1
unfolding find_by
find_unit_1 = refl

unknown_40 : any (λ (x : Delivery). x.id == 40) yard.deliveries ≡ false
unfolding any
unknown_40 = refl

register_delivery_effect_example :
    (find_delivery answer.1.id answer.0 ≡ some answer.1)
    × (answer.1.status ≡ DeliveryStatus.registered)
    × (count_by
          (is_duplicate days answer.0 form.vehicle_plate 5 (duplicate_day days form))
          answer.0.deliveries
        ≡ 1)
    × IsConsistent answer.0
register_delivery_effect_example =
    register_delivery_effect days spelling place 3 unit_1 form 40 90000000 90000500 yard
      days-IsCalendar refl find_unit_1 answer.0 answer.1 yard-IsConsistent unknown_40 registered

register_delivery_capacity_example :
    (count_by (is_booked days 7 1 truck (days.vn_date_key 90000500)) answer.0.deliveries ≤ 5)
    ⊎ ((e : Delivery) × (find_delivery e.id yard ≡ some e)
        × (e.status ≡ DeliveryStatus.registered)
        × (e.unit_config_id ≡ some 1)
        × (e.vehicle_type ≡ truck)
        × (answer.1 ≡ registration_data form 1 90000000 e)
        × (answer.0 ≡ update_delivery e.id (registration_data form 1 90000000) yard))
register_delivery_capacity_example =
    register_delivery_capacity days spelling place 3 unit_1 form 40 90000000 90000500 yard refl 5
      answer.0 answer.1 yard-IsConsistent refl refl registered
