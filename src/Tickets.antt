-- ===== src/Tickets.antt =====
-- backend/src/services/ticketSequence.ts and backend/src/lib/dateVN.ts: the queue numbers of a day.
-- A day key is a number. `toLocaleString` and `Date.UTC`, which name days, are the parameter
-- `Calendar`.
pub mod Fresh
use delivery_driver_manageme.Base.{
  ℕ, ◌+◌, ◌-◌, ◌==◌, ◌≡◌, ◌↔◌, ltb, leb, Bool, true, false, ◌&&◌, is_some, or_else, Option, none,
  some, List, [], ◌∷◌, select, first_by, find_by, update_by, ◌===◌,
}
use delivery_driver_manageme.Schema.{VehicleType, vehicle_eq, Delivery, TicketSequence}
use delivery_driver_manageme.Store.{Db}

pub record Calendar : Type 0 where
  pub vn_date_key : ℕ → ℕ
  pub utc_midnight : ℕ → ℕ

-- The end is 24 hours after the start; both are 7 hours before a midnight of UTC.
abbrev pub vn_date_start : Calendar → ℕ → ℕ
vn_date_start calendar key = calendar.utc_midnight key - 25200000

abbrev pub vn_date_end : Calendar → ℕ → ℕ
vn_date_end calendar key = calendar.utc_midnight key + 86400000 - 25200000

abbrev pub is_within_day : Calendar → ℕ → ℕ → Bool
is_within_day calendar key time =
    leb (vn_date_start calendar key) time && ltb time (vn_date_end calendar key)

-- What the two ways to name a day must agree on: Vietnam is 7 hours ahead of UTC.
pub record IsCalendar (calendar : Calendar) : Type 0 where
  pub same_day :
      (key time : ℕ) → is_within_day calendar key time ≡ (calendar.vn_date_key time == key)

abbrev time_within_day : Calendar → ℕ → Option ℕ → Bool
time_within_day calendar key none = false
time_within_day calendar key (some t) = is_within_day calendar key t

-- The rows of one queue: a unit, a type of vehicle and a day.
unfoldable pub has_ticket_of : Calendar → ℕ → ℕ → VehicleType → Delivery → Bool
has_ticket_of calendar key unit vehicle d =
    d.receiving_unit == unit
    && d.vehicle_type === vehicle
    && is_some d.ticket_number
    && time_within_day calendar key d.checkin_time

-- A row without a ticket counts as 0 here; the query selects none.
abbrev pub ticket_of : Delivery → ℕ
ticket_of d = or_else d.ticket_number 0

abbrev ticket_of_row : Option Delivery → ℕ
ticket_of_row none = 0
ticket_of_row (some d) = ticket_of d

-- `orderBy: { ticketNumber: 'desc' }`
abbrev pub higher_ticket : Delivery → Delivery → Bool
higher_ticket a b = ltb (ticket_of b) (ticket_of a)

unfoldable pub get_existing_max_ticket_number : Calendar → Db → ℕ → ℕ → VehicleType → ℕ
get_existing_max_ticket_number calendar db key unit vehicle =
    ticket_of_row
      (first_by higher_ticket (select (has_ticket_of calendar key unit vehicle) db.deliveries))

unfoldable pub is_sequence_of : ℕ → ℕ → VehicleType → TicketSequence → Bool
is_sequence_of key unit vehicle q =
    q.ticket_date == key && q.receiving_unit == unit && q.vehicle_type === vehicle

abbrev pub find_sequence : ℕ → ℕ → VehicleType → Db → Option TicketSequence
find_sequence key unit vehicle db = find_by (is_sequence_of key unit vehicle) db.ticket_sequences

abbrev pub increment : TicketSequence → TicketSequence
increment q = record q { next_number = q.next_number + 1 }

abbrev pub new_sequence : ℕ → ℕ → VehicleType → ℕ → TicketSequence
new_sequence key unit vehicle next = record {
  ticket_date = key;
  receiving_unit = unit;
  vehicle_type = vehicle;
  next_number = next;
}

-- The `upsert`, and the `nextNumber` that it selects.
unfoldable pub upsert_sequence : Db → ℕ → ℕ → VehicleType → ℕ → Db × ℕ
upsert_sequence db key unit vehicle first = elim (find_sequence key unit vehicle db) [
  | none ↦ (
    record db { ticket_sequences = new_sequence key unit vehicle first ∷ db.ticket_sequences },
    first,
  )
  | some q ↦ (
    record db {
      ticket_sequences = update_by (is_sequence_of key unit vehicle) increment db.ticket_sequences;
    },
    q.next_number + 1,
  )
]

unfoldable pub reserve_ticket_number : Calendar → Db → ℕ → VehicleType → ℕ → Db × ℕ
reserve_ticket_number calendar db unit vehicle checkin_time =
    let key = calendar.vn_date_key checkin_time in
    let existing_max = get_existing_max_ticket_number calendar db key unit vehicle in
    let (db', next) = upsert_sequence db key unit vehicle (existing_max + 2) in (db', next - 1)
