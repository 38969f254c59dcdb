-- ===== src/Register.antt =====
-- backend/src/modules/deliveries/deliveryService.ts: the transaction of registerDelivery, with the queries
-- of deliveryRepository.ts that it makes.
-- The checks before the transaction, and the audit record of an update, are not modelled. A row that is
-- read again under its lock is the one that was found: transactions are serial here.
pub mod Laws
pub mod Effects
pub mod Capacity
use delivery_driver_manageme.Base.{
  ℕ, ◌+◌, ◌==◌, ltb, leb, Bool, true, false, not, ◌&&◌, ◌||◌, if◌then◌else◌, same, is_some, or_else,
  Option, none, some, List, [], ◌∷◌, length, any, count_by, select, first_by, includes, ◌===◌,
  bad_request, conflict, Result, ok, thrown, failed, require, ◌>>=◌, ◌>>◌,
}
use delivery_driver_manageme.Schema.{
  Text, DeliveryStatus, waiting, called, receiving, auto_warehouse_receiving, status_eq, GoodsType,
  goods_eq, VehicleType, vehicle_eq, EventType, FinalStatus, final_eq, UnitConfig, Delivery,
  DeliveryHistory, Message,
}
use delivery_driver_manageme.Store.{Db, find_delivery, update_delivery, config_of, location_of}
use delivery_driver_manageme.History.{record_delivery_event}
use delivery_driver_manageme.AutoAssign.{auto_assign_actor}
use delivery_driver_manageme.CheckIn.{same_text}
use delivery_driver_manageme.Tickets.{Calendar, is_within_day, vn_date_start}
use delivery_driver_manageme.Registration.{Spelling, reserve_registration_code}

-- What the transaction reads of the request. `quick` says that a code was verified.
pub record RegisterArgs : Type 0 where
  pub vehicle_plate : Text
  pub vehicle_type : VehicleType
  pub receiving_unit : ℕ
  pub goods_type : GoodsType
  pub original_goods_type : GoodsType
  pub vendor_code : Option Text
  pub requested_time : Option ℕ
  pub delivery_date : ℕ
  pub note : Option ℕ
  pub quick : Bool
  pub daily_capacity : Option ℕ

-- `requestedTime ?? parseDeliveryDate(deliveryDate)`, as a day.
unfoldable pub duplicate_day : Calendar → RegisterArgs → ℕ
duplicate_day calendar args =
    calendar.vn_date_key (or_else args.requested_time (vn_date_start calendar args.delivery_date))

-- Requested on a day, or without a request created on it.
abbrev pub on_day : Calendar → ℕ → Option ℕ → ℕ → Bool
on_day calendar key none created = is_within_day calendar key created
on_day calendar key (some t) created = is_within_day calendar key t

abbrev pub finished_statuses : List DeliveryStatus
finished_statuses = DeliveryStatus.completed ∷ DeliveryStatus.cancelled ∷ []

-- The `where` of `findDuplicateRegistration`.
unfoldable pub is_duplicate : Calendar → Db → Text → ℕ → ℕ → Delivery → Bool
is_duplicate calendar db plate location key d =
    same_text d.vehicle_plate plate
    && same (location_of (config_of d.unit_config_id db)) (some location)
    && not (includes finished_statuses d.status)
    && on_day calendar key d.requested_time d.created_at

unfoldable pub find_duplicate_registration : Calendar → Db → Text → ℕ → ℕ → List Delivery
find_duplicate_registration calendar db plate location key =
    select (is_duplicate calendar db plate location key) db.deliveries

-- The registration that may be written again.
unfoldable pub open_registration : Db → List Delivery → Result (Option Delivery)
open_registration db [] = ok none
open_registration db (d ∷ []) = elim (find_delivery d.id db) [
  | none ↦ ok none
  | some e ↦
      if includes finished_statuses e.status
      then ok none
      else (if not (e.status === DeliveryStatus.registered) || is_some e.checkin_time
          then thrown conflict
          else ok (some e))
]
open_registration db (d ∷ d' ∷ ds) = thrown conflict

abbrev pub blocking_statuses : FinalStatus → Bool
blocking_statuses s = s === FinalStatus.expired || s === FinalStatus.incompleted

-- The `where` of the blocking history row.
unfoldable pub is_blocked_by : Calendar → Text → ℕ → ℕ → DeliveryHistory → Bool
is_blocked_by calendar plate location key h =
    same h.business_location_id (some location)
    && same_text h.vehicle_plate plate
    && blocking_statuses h.final_status
    && on_day calendar key h.requested_time h.registered_at

abbrev pub booked_statuses : List DeliveryStatus
booked_statuses =
    DeliveryStatus.registered ∷ waiting ∷ called ∷ receiving ∷ auto_warehouse_receiving ∷ []

abbrev requested_on : Calendar → ℕ → Option ℕ → Bool
requested_on calendar key none = false
requested_on calendar key (some t) = is_within_day calendar key t

-- The `where` of the bookings of a day.
unfoldable pub is_booked : Calendar → ℕ → ℕ → VehicleType → ℕ → Delivery → Bool
is_booked calendar unit unit_config_id vehicle key d =
    d.receiving_unit == unit
    && same d.unit_config_id (some unit_config_id)
    && d.vehicle_type === vehicle
    && includes booked_statuses d.status
    && requested_on calendar key d.requested_time

unfoldable pub has_capacity : Calendar → Db → RegisterArgs → ℕ → ℕ → Bool
has_capacity calendar db args unit_config_id requested = elim args.daily_capacity [
  | none ↦ true
  | some capacity ↦
      ltb
        (count_by
          (is_booked calendar args.receiving_unit unit_config_id args.vehicle_type
            (calendar.vn_date_key requested))
          db.deliveries)
        capacity
]

-- The unit or the type of vehicle of the existing registration changes, or there is none.
unfoldable pub takes_place : RegisterArgs → ℕ → Option Delivery → Bool
takes_place args unit_config_id none = true
takes_place args unit_config_id (some e) =
    not (same e.unit_config_id (some unit_config_id)) || not (e.vehicle_type === args.vehicle_type)

abbrev pub fits : Calendar → Db → RegisterArgs → ℕ → Option Delivery → Bool
fits calendar db args unit_config_id existing = elim args.requested_time [
  | none ↦ true
  | some t ↦
      args.quick
      || not (takes_place args unit_config_id existing)
      || has_capacity calendar db args unit_config_id t
]

abbrev is_day : Calendar → Option ℕ → ℕ → Bool
is_day calendar none today = true
is_day calendar (some t) today = calendar.vn_date_key t == today

-- `assertRegistrationDateIsToday`
unfoldable pub is_today : Calendar → RegisterArgs → ℕ → Bool
is_today calendar args now =
    args.delivery_date == calendar.vn_date_key now
    && is_day calendar args.requested_time (calendar.vn_date_key now)

-- `registrationData`
unfoldable pub registration_data : RegisterArgs → ℕ → ℕ → Delivery → Delivery
registration_data args unit_config_id now d = record d {
  vehicle_plate = args.vehicle_plate;
  vehicle_type = args.vehicle_type;
  receiving_unit = args.receiving_unit;
  unit_config_id = some unit_config_id;
  goods_type = args.goods_type;
  original_goods_type = some args.original_goods_type;
  vendor_code = args.vendor_code;
  requested_time = args.requested_time;
  auto_warehouse = args.goods_type === GoodsType.auto_warehouse;
  note = args.note;
  updated_at = now;
}

unfoldable pub new_delivery : RegisterArgs → ℕ → ℕ → ℕ → Text → Delivery
new_delivery args unit_config_id new_id now code = record {
  id = new_id;
  registration_code = code;
  vehicle_plate = args.vehicle_plate;
  receiving_unit = args.receiving_unit;
  unit_config_id = some unit_config_id;
  goods_type = args.goods_type;
  original_goods_type = some args.original_goods_type;
  vendor_code = args.vendor_code;
  requested_time = args.requested_time;
  checkin_time = none;
  called_time = none;
  receiving_start_time = none;
  completed_time = none;
  status = DeliveryStatus.registered;
  assigned_slot_id = none;
  vehicle_type = args.vehicle_type;
  auto_warehouse = args.goods_type === GoodsType.auto_warehouse;
  ticket_number = none;
  note = args.note;
  cancel_reason = none;
  created_at = now;
  updated_at = now;
}

-- `deliveryRegistration.create`, which fails on a code that is in use, and its event.
unfoldable pub create_delivery : Delivery → ℕ → Db → Result (Db × Delivery)
create_delivery d label db =
    if any (λ (x : Delivery). same_text x.registration_code d.registration_code) db.deliveries
    then failed
    else ok (
      record_delivery_event d
          (record {
            actor = auto_assign_actor label;
            event_type = EventType.registered;
            from_status = none;
            to_status = some d.status;
            occurred_at = d.created_at;
            message = some Message.registered;
            reason = none;
            slot = none;
          })
          (record db { deliveries = d ∷ db.deliveries }),
      d,
    )

-- `location` is the code of the business location, `label` the actor of the public form.
module _ (calendar : Calendar) (spelling : Spelling) (location : Text) (label : ℕ) where
  unfoldable pub store_registration :
      UnitConfig → RegisterArgs → ℕ → ℕ → Db → Option Delivery → Result (Db × Delivery)
  store_registration unit args new_id now db none =
      let (db', code) =
        reserve_registration_code calendar spelling db unit.id location args.receiving_unit now in
      require (is_today calendar args now) bad_request
      >> create_delivery (new_delivery args unit.id new_id now code) label db'
  store_registration unit args new_id now db (some e) =
      require (is_today calendar args now) bad_request
      >> ok (
        update_delivery e.id (registration_data args unit.id now) db,
        registration_data args unit.id now e,
      )

  unfoldable pub register_delivery : UnitConfig → RegisterArgs → ℕ → ℕ → Db → Result (Db × Delivery)
  register_delivery unit args new_id now db = do
    existing ← open_registration db (
        find_duplicate_registration calendar db args.vehicle_plate unit.business_location_id
          (duplicate_day calendar args))
    require
        (not (
          any
            (is_blocked_by calendar args.vehicle_plate unit.business_location_id
              (calendar.vn_date_key (or_else args.requested_time now)))
            db.histories))
        conflict
    require (fits calendar db args unit.id existing) conflict
    store_registration unit args new_id now db existing
