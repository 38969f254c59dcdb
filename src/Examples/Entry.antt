-- ===== src/Examples/Entry.antt =====
-- The theorems on check-in, at the small yard.
use delivery_driver_manageme.Base.{
  ℕ, ◌≡◌, ◌≢◌, ◌⊎◌, refl, ◌+◌, ◌*◌, ◌/◌, true, false, none, some, [], ◌∷◌, All, arith, ok, thrown,
  conflict, find_by,
}
use delivery_driver_manageme.Schema.{
  DeliveryStatus, waiting, GoodsType, Delivery, general_goods, goods_eq, Text, truck, vehicle_eq,
}
use delivery_driver_manageme.Store.{Db, find_delivery}
use delivery_driver_manageme.SlotState.{occupancy}
use delivery_driver_manageme.Consistency.{IsConsistent}
use delivery_driver_manageme.Tickets.{Calendar, IsCalendar, reserve_ticket_number}
use delivery_driver_manageme.Tickets.Fresh.{
  IsAhead, IsBelow, IsReserved, reserve_ticket_number-IsReserved,
}
use delivery_driver_manageme.CheckIn.{
  Classification, resolve_check_in_goods_type, vendor_matches, mark_checked_in, check_in_delivery,
}
use delivery_driver_manageme.CheckIn.Verdict.{
  IsOtherUnit, IsOwnUnit, IsDeclared, IsGoodsOf, check_in_delivery_verdict,
}
use delivery_driver_manageme.CheckIn.Queue.{
  HasDistinctTickets, same_ticket, check_in_delivery_effect,
}
use delivery_driver_manageme.Examples.{yard, yard-IsConsistent, staff, truck_23, find_23}

-- Days counted from 1970-01-01.
abbrev pub days : Calendar
days = record { vn_date_key = λ t. (t + 25200000) / 86400000; utc_midnight = λ k. k * 86400000 }

pub days-IsCalendar : IsCalendar days
days-IsCalendar = record { same_day = λ key time. ground arith }

abbrev as_is : ℕ → Text
as_is c = c ∷ []

yard-IsAhead : IsAhead days yard
unfolding find_by
yard-IsAhead = record { ahead = λ key unit vehicle q h. cc h }

yard-HasDistinctTickets : HasDistinctTickets days yard.deliveries
unfolding same_ticket
yard-HasDistinctTickets = (
  ((λ _. refl), ((λ h. cc h), ((λ h. cc h), tt))),
  (
    ((λ h. cc h), ((λ _. refl), ((λ h. cc h), tt))),
    (((λ h. cc h), ((λ h. cc h), ((λ _. refl), tt))), tt),
  ),
)

reserve_ticket_number-IsReserved_example :
    let (db', n) = reserve_ticket_number days yard 7 truck 90000005 in
    IsReserved days yard db' 1 7 truck n
reserve_ticket_number-IsReserved_example =
    reserve_ticket_number-IsReserved days yard 7 truck 90000005 yard-IsAhead

abbrev as_goods : Classification
as_goods = record { goods_type = general_goods; auto_warehouse = false }

check_in_delivery_verdict_example :
    let r = check_in_delivery days as_is yard 23 none staff 90000005 in
    let vendor = vendor_matches as_is yard truck_23 in
    (IsOtherUnit none truck_23 × (r ≡ thrown conflict))
    ⊎ (IsOwnUnit none truck_23
        × (truck_23.status ≢ DeliveryStatus.registered)
        × (r ≡ ok (yard, record { checked_in = false; delivery = some truck_23 })))
    ⊎ (IsOwnUnit none truck_23
        × (truck_23.status ≡ DeliveryStatus.registered)
        × (((vendor ≡ false) × IsDeclared truck_23 GoodsType.auto_warehouse × (r ≡ thrown conflict))
            ⊎ ((db' : Db) × (u : Delivery) × (r
                  ≡ ok (db', record { checked_in = true; delivery = some u }))
                × (find_delivery 23 db' ≡ some u)
                × (u.status ≡ waiting)
                × (u.checkin_time ≡ some 90000005)
                × IsGoodsOf vendor truck_23 u.goods_type u.auto_warehouse)))
check_in_delivery_verdict_example =
    check_in_delivery_verdict days as_is yard 23 none staff 90000005 truck_23 find_23

classified :
    resolve_check_in_goods_type general_goods none (vendor_matches as_is yard truck_23)
    ≡ ok as_goods
unfolding resolve_check_in_goods_type vendor_matches
classified = refl

check_in_delivery_effect_example :
    (db' : Db) × (n : ℕ) × (check_in_delivery days as_is yard 23 none staff 90000005
      ≡ ok (
        db',
        record {
          checked_in = true;
          delivery = some (mark_checked_in 90000005 n as_goods truck_23);
        },
      ))
    × (find_delivery 23 db' ≡ some (mark_checked_in 90000005 n as_goods truck_23))
    × All (IsBelow days 1 7 truck n) yard.deliveries
    × HasDistinctTickets days db'.deliveries
    × IsAhead days db'
    × IsConsistent db'
    × ((j : ℕ) → occupancy j db' ≡ occupancy j yard)
check_in_delivery_effect_example =
    check_in_delivery_effect days as_is yard 23 none staff 90000005 truck_23 as_goods
      days-IsCalendar yard-IsAhead yard-HasDistinctTickets yard-IsConsistent find_23 refl refl
      classified
