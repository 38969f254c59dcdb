-- ===== src/Register/Capacity.antt =====
-- The capacity of a day.
use delivery_driver_manageme.Base.{
  ℕ, ◌≤◌, ◌<◌, ◌≡◌, refl, sym, subst, ◌⊎◌, Bool, true, false, bit, Option, none, some, inl, inr,
  arith, Bool-cases, ok, count_by, count_by-update_row, ltb, same, same_iff, ◌===◌,
}
use delivery_driver_manageme.Schema.{Text, UnitConfig, Delivery, DeliveryStatus, vehicle_eq}
use delivery_driver_manageme.Store.{Db, delivery_id, find_delivery, update_delivery}
use delivery_driver_manageme.Consistency.{IsConsistent}
use delivery_driver_manageme.Tickets.{Calendar}
use delivery_driver_manageme.Registration.{Spelling}
use delivery_driver_manageme.Register.{
  RegisterArgs, fits, is_booked, has_capacity, takes_place, registration_data, register_delivery,
}
use delivery_driver_manageme.Register.Laws.{register_delivery-cases}

module _ (calendar : Calendar) (spelling : Spelling) (location : Text) (label : ℕ)
    (unit : UnitConfig) (args : RegisterArgs) (new_id now t : ℕ) (db : Db)
    (asked : args.requested_time ≡ some t) where
  abbrev is_of_day : Delivery → Bool
  is_of_day =
      is_booked calendar args.receiving_unit unit.id args.vehicle_type (calendar.vn_date_key t)

  bit-le_one : (b : Bool) → bit b ≤ 1
  bit-le_one b = ground arith

  has_room :
      (existing : Option Delivery) (capacity : ℕ)
      → args.quick ≡ false
      → args.daily_capacity ≡ some capacity
      → takes_place args unit.id existing ≡ true
      → fits calendar db args unit.id existing ≡ true
      → count_by is_of_day db.deliveries < capacity
  unfolding has_capacity takes_place count_by
  has_room existing capacity slow limit takes fitting =
      let e : fits calendar db args unit.id existing
          ≡ ltb (count_by is_of_day db.deliveries) capacity =
        rw (asked, slow, takes, limit) refl in
      ground (arith, fitting, e)

  -- In a consistent yard, a registration that succeeds, for a requested time and without a verified code,
  -- either leaves at most as many bookings of its unit, type of vehicle and day as the capacity of the
  -- day, or all that it writes to the registrations is to write again the one that it answers, which was
  -- stored as registered with the same unit and type of vehicle.
  pub register_delivery_capacity :
      (capacity : ℕ) (db' : Db) (d : Delivery)
      → IsConsistent db
      → args.quick ≡ false
      → args.daily_capacity ≡ some capacity
      → register_delivery calendar spelling location label unit args new_id now db ≡ ok (db', d)
      → (count_by is_of_day db'.deliveries ≤ capacity)
        ⊎ ((e : Delivery) × (find_delivery e.id db ≡ some e)
            × (e.status ≡ DeliveryStatus.registered)
            × (e.unit_config_id ≡ some unit.id)
            × (e.vehicle_type ≡ args.vehicle_type)
            × (d ≡ registration_data args unit.id now e)
            × (db' ≡ update_delivery e.id (registration_data args unit.id now) db))
  unfolding count_by takes_place
  register_delivery_capacity capacity db' d c slow limit h =
      elim (register_delivery-cases calendar spelling location label unit args new_id now db db' d c
        h) [
          | inl made ↦ inl (
              subst (λ ds. count_by is_of_day ds ≤ capacity) (sym made.rows)
                (omega (
                  arith,
                  has_room none capacity slow limit refl made.fitting,
                  bit-le_one (is_of_day d),
                )))
          | inr made ↦ elim (Bool-cases (takes_place args unit.id (some made.old))) [
            | inl takes ↦
                let again = registration_data args unit.id now in
                inl (
                  subst (λ z. count_by is_of_day z.deliveries ≤ capacity) (sym made.rows)
                    (omega (
                      arith,
                      has_room (some made.old) capacity slow limit takes made.fitting,
                      count_by-update_row delivery_id is_of_day made.old.id again db.deliveries
                          made.old c.keyed.deliveries_unique made.reopened.found,
                      bit-le_one (is_of_day (again made.old)),
                    )))
            | inr stays ↦
                let own : same made.old.unit_config_id (some unit.id) ≡ true =
                  ground (arith, stays) in
                let alike : (made.old.vehicle_type === args.vehicle_type) ≡ true =
                  ground (arith, stays) in
                inr (
                  made.old,
                  made.reopened.found,
                  made.reopened.registered,
                  (same_iff _ _).0 own,
                  (vehicle_eq.eq_iff _ _).0 alike,
                  made.is_new,
                  made.rows,
                )
          ]
        ]
