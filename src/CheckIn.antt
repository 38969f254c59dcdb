-- ===== src/CheckIn.antt =====
-- backend/src/services/checkInDelivery.ts and autoWarehousePolicy.ts: check-in at the gate.
-- `upper` is Unicode's table of upper-case letters, which `toUpperCase` reads.
pub mod Laws
pub mod Queue
pub mod Verdict
use delivery_driver_manageme.Base.{
  ℕ, ◌==◌, Bool, true, false, not, ◌&&◌, ◌||◌, if◌then◌else◌, is_truthy, same, or_else, Option,
  none, some, List, [], ◌∷◌, ◌++◌, any, includes, nat_eq, ◌===◌, DomainErrorKind, conflict, Result,
  ok, thrown, ◌>>=◌,
}
use delivery_driver_manageme.Schema.{
  DeliveryStatus, waiting, status_eq, GoodsType, auto_warehouse, goods_eq, EventType, Text,
  Delivery, AutoWarehouseVendor, Actor, Message,
}
use delivery_driver_manageme.Store.{Db, find_delivery, update_delivery}
use delivery_driver_manageme.History.{record_delivery_event}
use delivery_driver_manageme.Tickets.{Calendar, reserve_ticket_number}

pub record Classification : Type 0 where
  pub goods_type : GoodsType
  pub auto_warehouse : Bool

unfoldable pub resolve_check_in_goods_type :
    GoodsType → Option GoodsType → Bool → Result Classification
resolve_check_in_goods_type goods original vendor_matches =
    if vendor_matches
    then ok (record { goods_type = GoodsType.auto_warehouse; auto_warehouse = true })
    else if or_else original goods === GoodsType.auto_warehouse
    then thrown conflict
    else ok (record { goods_type = or_else original goods; auto_warehouse = false })

-- The white space and line ends of `trim`.
abbrev white_space : List ℕ
white_space =
    9 ∷ 10 ∷ 11 ∷ 12 ∷ 13 ∷ 32 ∷ 160 ∷ 5760 ∷ 8192 ∷ 8193 ∷ 8194 ∷ 8195 ∷ 8196 ∷ 8197 ∷ 8198 ∷ 8199
    ∷ 8200 ∷ 8201 ∷ 8202 ∷ 8232 ∷ 8233 ∷ 8239 ∷ 8287 ∷ 12288 ∷ 65279 ∷ []

unfoldable pub trim_start : Text → Text
trim_start [] = []
trim_start (c ∷ cs) = let rest = trim_start cs in if includes white_space c then rest else c ∷ cs

abbrev is_empty : Text → Bool
is_empty [] = true
is_empty (c ∷ cs) = false

unfoldable pub trim_end : Text → Text
trim_end [] = []
trim_end (c ∷ cs) =
    let rest = trim_end cs in if includes white_space c && is_empty rest then [] else c ∷ rest

unfoldable pub to_upper_case : (ℕ → Text) → Text → Text
to_upper_case upper [] = []
to_upper_case upper (c ∷ cs) = upper c ++ to_upper_case upper cs

unfoldable pub same_text : Text → Text → Bool
same_text [] [] = true
same_text [] (b ∷ bs) = false
same_text (a ∷ as_) [] = false
same_text (a ∷ as_) (b ∷ bs) = a == b && same_text as_ bs

-- The `where` of the vendor query.
unfoldable pub is_vendor_of : Text → Delivery → AutoWarehouseVendor → Bool
is_vendor_of code d v =
    same_text v.vendor_code code
    && v.unit == d.receiving_unit
    && same v.unit_config_id d.unit_config_id
    && v.active

unfoldable pub vendor_matches : (ℕ → Text) → Db → Delivery → Bool
vendor_matches upper db d = elim d.vendor_code [
  | none ↦ false
  | some t ↦
      let code = to_upper_case upper (trim_end (trim_start t)) in
      not (is_empty code) && is_truthy d.unit_config_id && any (is_vendor_of code d) db.vendors
]

pub record CheckInResult : Type 0 where
  pub checked_in : Bool
  pub delivery : Option Delivery

abbrev pub mark_checked_in : ℕ → ℕ → Classification → Delivery → Delivery
mark_checked_in now ticket c d = record d {
  status = waiting;
  checkin_time = some now;
  ticket_number = some ticket;
  goods_type = c.goods_type;
  auto_warehouse = c.auto_warehouse;
  updated_at = now;
}

-- `expectedUnitConfigId !== undefined && unitConfigId !== expectedUnitConfigId`
abbrev pub unit_changed : Option (Option ℕ) → Delivery → Bool
unit_changed none d = false
unit_changed (some expected) d = not (same d.unit_config_id expected)

-- The writes once the goods are classified.
unfoldable pub check_in_classified :
    Calendar → Db → Delivery → Actor → ℕ → Classification → Db × CheckInResult
check_in_classified calendar db d actor now c =
    let (reserved, ticket) =
      reserve_ticket_number calendar db d.receiving_unit d.vehicle_type now in
    let updated = mark_checked_in now ticket c d in
    (
      record_delivery_event updated
          (record {
            actor = actor;
            event_type = EventType.checked_in;
            from_status = some d.status;
            to_status = some waiting;
            occurred_at = now;
            message = some Message.checked_in;
            reason = none;
            slot = none;
          })
          (update_delivery d.id (mark_checked_in now ticket c) reserved),
      record { checked_in = true; delivery = some updated },
    )

abbrev pub not_checked_in : Db → Option Delivery → Result (Db × CheckInResult)
not_checked_in db d = ok (db, record { checked_in = false; delivery = d })

unfoldable pub check_in_registered :
    Calendar → (ℕ → Text) → Db → Delivery → Actor → ℕ → Result (Db × CheckInResult)
check_in_registered calendar upper db d actor now = do
  c ← resolve_check_in_goods_type d.goods_type d.original_goods_type (vendor_matches upper db d)
  ok (check_in_classified calendar db d actor now c)

-- An error rolls the transaction back, so it comes without a database.
unfoldable pub check_in_delivery :
    Calendar → (ℕ → Text) → Db → ℕ → Option (Option ℕ) → Actor → ℕ → Result (Db × CheckInResult)
unfolding check_in_registered
check_in_delivery calendar upper db i expected actor now = elim (find_delivery i db) [
  | none ↦ not_checked_in db none
  | some d ↦
      if unit_changed expected d
      then thrown conflict
      else if d.status === waiting || not (d.status === DeliveryStatus.registered)
      then not_checked_in db (some d)
      else check_in_registered calendar upper db d actor now
]
