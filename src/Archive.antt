-- ===== src/Archive.antt =====
-- backend/src/modules/history/archiveService.ts: a closed delivery becomes a row of the history.
-- Columns that no modelled code reads, and the JSON metadata, are not modelled.
pub mod Rows
pub mod Recording
pub mod Effects
pub mod Yard
use delivery_driver_manageme.Base.{
  ℕ, ◌+◌, ◌-◌, ◌/◌, ◌==◌, ltb, Bool, true, false, not, ◌&&◌, ◌||◌, if◌then◌else◌, same, or_else,
  is_truthy, Option, none, some, List, [], ◌∷◌, count_by, update_by, update_row, find_row,
  delete_row, ◌===◌, Result, ok, failed,
}
use delivery_driver_manageme.Schema.{
  DeliveryStatus, status_eq, EventType, event_eq, FinalStatus, final_eq, Slot, Delivery, Actor,
  HistoryEvent, DeliveryHistory, Message,
}
use delivery_driver_manageme.Store.{Db, find_delivery, find_slot, add_event, delivery_id}
use delivery_driver_manageme.SlotState.{reconcile_slot_state}
use delivery_driver_manageme.History.{
  DeliveryScope, resolve_delivery_scope, count_call_history_events, get_last_call_history_event,
}

pub data ArchiveReason : Type 0 where
  completed cancelled expired_no_show expired_waiting incompleted : ArchiveReason

pub record ArchiveInput : Type 0 where
  pub delivery_id : ℕ
  pub final_status : FinalStatus
  pub archive_reason : ArchiveReason
  pub close_reason : Option ℕ
  pub job_run_id : Option ℕ
  pub occurred_at : Option ℕ
  pub delete_operational_row : Bool
  pub expected_status : Option DeliveryStatus
  pub updated_before : Option ℕ
  pub actor : Actor

-- `a ?? b` between nullable values.
abbrev pub or_option {ℓ} : {A : Type ℓ} → Option A → Option A → Option A
or_option none b = b
or_option (some a) b = some a

-- backend/src/helperFunction.ts: `Math.max(0, Math.round((end - start) / 60_000))`
unfoldable pub minutes_between : Option ℕ → Option ℕ → Option ℕ
minutes_between none end = none
minutes_between (some start) none = none
minutes_between (some start) (some end) = some ((end - start + 30000) / 60000)

unfoldable pub delivery_close_event_type : ArchiveReason → EventType
delivery_close_event_type completed = EventType.completed
delivery_close_event_type cancelled = EventType.cancelled
delivery_close_event_type expired_no_show = EventType.expired_no_show
delivery_close_event_type expired_waiting = EventType.expired_waiting
delivery_close_event_type incompleted = EventType.incompleted

unfoldable pub delivery_close_timestamp : FinalStatus → Option ℕ → ℕ → Option ℕ
delivery_close_timestamp FinalStatus.completed completed_time now =
    some (or_else completed_time now)
delivery_close_timestamp _ completed_time now = some now

-- `closeReason ?? delivery.cancelReason ?? delivery.note ?? null`
abbrev pub reason_of : ArchiveInput → Delivery → Option ℕ
reason_of input d = or_option input.close_reason (or_option d.cancel_reason d.note)

abbrev pub is_event_of : ℕ → EventType → HistoryEvent → Bool
is_event_of i type e = e.original_delivery_id == i && e.event_type === type

abbrev nobody : Actor
nobody = record { actor_type = none; actor_id = none; actor_label = none }

-- The columns that every event of the archive shares.
abbrev pub archive_event : Delivery → DeliveryScope → EventType → ℕ → HistoryEvent
archive_event d scope type occurred_at = record {
  delivery_history_id = none;
  delivery_registration_id = some d.id;
  original_delivery_id = d.id;
  registration_code = d.registration_code;
  business_location_id = scope.business_location_id;
  unit_config_id = scope.unit_config_id;
  event_type = type;
  from_status = none;
  to_status = none;
  occurred_at = occurred_at;
  actor = nobody;
  slot_id = none;
  slot_code = none;
  slot_name = none;
  message = none;
  reason = none;
}

-- An event is recorded unless the delivery has one of its type.
unfoldable pub ensure_event : HistoryEvent → Db → Db
ensure_event e db =
    if ltb 0 (count_by (is_event_of e.original_delivery_id e.event_type) db.events)
    then db
    else add_event e db

abbrev pub ensure_registered_event : Delivery → DeliveryScope → Db → Db
ensure_registered_event d scope db =
    ensure_event
      (record (archive_event d scope EventType.registered d.created_at) {
        to_status = some DeliveryStatus.registered;
        message = some Message.registered;
      })
      db

abbrev slot_at : Option ℕ → Db → Option Slot
slot_at none db = none
slot_at (some i) db = find_slot i db

-- The delivery's slot, as the query includes it.
abbrev pub assigned_slot : Delivery → Db → Option Slot
assigned_slot d db = slot_at d.assigned_slot_id db

abbrev pub slot_value : (Slot → ℕ) → Option Slot → Option ℕ
slot_value f none = none
slot_value f (some s) = some (f s)

abbrev pub ensure_close_event : Delivery → ArchiveInput → ℕ → DeliveryScope → Db → Db
ensure_close_event d input now scope db =
    let slot = assigned_slot d db in
    ensure_event
      (record (archive_event d scope (delivery_close_event_type input.archive_reason) now) {
        to_status = some d.status;
        actor = input.actor;
        slot_id = or_option (slot_value (λ s. s.id) slot) scope.slot_id;
        slot_code = or_option (slot_value (λ s. s.code) slot) scope.slot_code;
        slot_name = or_option (slot_value (λ s. s.name) slot) scope.slot_name;
        reason = reason_of input d;
      })
      db

abbrev time_of : Option HistoryEvent → Option ℕ
time_of none = none
time_of (some e) = some e.occurred_at

abbrev only_if : Bool → Option ℕ → Option ℕ
only_if test time = if test then time else none

-- The row that the `upsert` creates. `db` is the database after the two events.
unfoldable pub created_history :
    ℕ → Db → Delivery → ArchiveInput → ℕ → DeliveryScope → DeliveryHistory
created_history new_id db d input now scope =
    let close_at = delivery_close_timestamp input.final_status d.completed_time now in
    let slot = assigned_slot d db in
    record {
      id = new_id;
      original_delivery_id = d.id;
      registration_code = d.registration_code;
      business_location_id = scope.business_location_id;
      unit_config_id = scope.unit_config_id;
      receiving_unit = d.receiving_unit;
      vendor_code = d.vendor_code;
      vehicle_plate = d.vehicle_plate;
      goods_type = d.goods_type;
      vehicle_type = d.vehicle_type;
      auto_warehouse = d.auto_warehouse;
      requested_time = d.requested_time;
      registered_at = d.created_at;
      checkin_time = d.checkin_time;
      called_time = d.called_time;
      receiving_start_time = d.receiving_start_time;
      completed_time = d.completed_time;
      final_status = input.final_status;
      close_reason = reason_of input d;
      ticket_number = d.ticket_number;
      assigned_slot_id = or_option (slot_value (λ s. s.id) slot) d.assigned_slot_id;
      assigned_slot_code = or_option (slot_value (λ s. s.code) slot) scope.slot_code;
      assigned_slot_name = or_option (slot_value (λ s. s.name) slot) scope.slot_name;
      call_count = count_call_history_events d.id db;
      last_called_at = or_option (time_of (get_last_call_history_event d.id db)) d.called_time;
      cancelled_at = only_if (input.final_status === FinalStatus.cancelled) close_at;
      expired_at = only_if (input.final_status === FinalStatus.expired) close_at;
      archived_at = now;
      archived_by_job_run_id = input.job_run_id;
      duration_waiting_minutes =
          minutes_between d.checkin_time
            (or_option d.called_time (or_option d.receiving_start_time close_at));
      duration_receiving_minutes =
          minutes_between d.receiving_start_time (or_option d.completed_time close_at);
      note = d.note;
    }

-- What the `upsert` writes into a row that exists: the columns of a new row that `update` names.
unfoldable pub updated_history : DeliveryHistory → DeliveryHistory → DeliveryHistory
updated_history new old = record old {
  business_location_id = new.business_location_id;
  unit_config_id = new.unit_config_id;
  final_status = new.final_status;
  close_reason = new.close_reason;
  call_count = new.call_count;
  last_called_at = new.last_called_at;
  completed_time = new.completed_time;
  cancelled_at = new.cancelled_at;
  expired_at = new.expired_at;
  archived_at = new.archived_at;
  archived_by_job_run_id = new.archived_by_job_run_id;
  duration_waiting_minutes = new.duration_waiting_minutes;
  duration_receiving_minutes = new.duration_receiving_minutes;
  note = new.note;
}

abbrev pub original_id : DeliveryHistory → ℕ
original_id h = h.original_delivery_id

-- `deliveryHistory.findUnique({ where: { originalDeliveryId } })`
abbrev pub find_history : ℕ → Db → Option DeliveryHistory
find_history i db = find_row original_id i db.histories

-- The `upsert`, and the row that it answers.
unfoldable pub upsert_history : DeliveryHistory → Db → Db × DeliveryHistory
upsert_history new db = elim (find_history new.original_delivery_id db) [
  | none ↦ (record db { histories = new ∷ db.histories }, new)
  | some old ↦ (
    record db {
      histories =
          update_row original_id new.original_delivery_id (updated_history new) db.histories;
    },
    updated_history new old,
  )
]

abbrev link_event : ℕ → HistoryEvent → HistoryEvent
link_event history_id e = record e { delivery_history_id = some history_id }

-- `deliveryHistoryEvent.updateMany`
abbrev pub link_events : ℕ → ℕ → Db → Db
link_events i history_id db = record db {
  events =
      update_by (λ (e : HistoryEvent). e.original_delivery_id == i) (link_event history_id)
        db.events;
}

abbrev forget_delivery : HistoryEvent → HistoryEvent
forget_delivery e = record e { delivery_registration_id = none }

-- `deliveryRegistration.delete`; the events' foreign key is `onDelete: SetNull`.
abbrev pub delete_delivery : ℕ → Db → Db
delete_delivery i db = record db {
  deliveries = delete_row delivery_id i db.deliveries;
  events =
      update_by (λ (e : HistoryEvent). same e.delivery_registration_id (some i)) forget_delivery
        db.events;
}

-- `reconcileSlotState(tx, assignedSlotId, { preserveManualStatus: false })`, if there is a slot.
pub reconcile_forced : Option ℕ → Db → Db
reconcile_forced none db = db
reconcile_forced (some i) db =
    if is_truthy (some i) then (reconcile_slot_state db i false).0 else db

-- The writes under `deleteOperationalRow`.
unfoldable pub remove_operational_row : Delivery → ArchiveInput → ℕ → DeliveryScope → ℕ → Db → Db
remove_operational_row d input now scope history_id db =
    let archived =
      add_event
        (record (archive_event d scope EventType.archived now) {
          delivery_history_id = some history_id;
          from_status = some d.status;
          actor = input.actor;
          reason = reason_of input d;
        })
        db in
    delete_delivery d.id (reconcile_forced d.assigned_slot_id archived)

pub record ArchiveResult : Type 0 where
  pub history : Option DeliveryHistory
  pub archived : Bool
  pub deleted : Bool

-- The two guards that end in `throw new Error`.
abbrev pub status_differs : Option DeliveryStatus → Delivery → Bool
status_differs none d = false
status_differs (some expected) d = not (d.status === expected)

abbrev pub updated_after : Option ℕ → Delivery → Bool
updated_after none d = false
updated_after (some limit) d = ltb limit d.updated_at

-- The history row and its events: all writes but those of the deletion.
unfoldable pub write_history : ℕ → Db → Delivery → ArchiveInput → ℕ → Db × DeliveryHistory
write_history new_id db d input now =
    let scope = resolve_delivery_scope db d.unit_config_id d.assigned_slot_id in
    let recorded = ensure_close_event d input now scope (ensure_registered_event d scope db) in
    let (upserted, history) =
      upsert_history (created_history new_id recorded d input now scope) recorded in
    (link_events d.id history.id upserted, history)

unfoldable pub archive_found : ℕ → Db → Delivery → ArchiveInput → ℕ → Db × ArchiveResult
archive_found new_id db d input now =
    let scope = resolve_delivery_scope db d.unit_config_id d.assigned_slot_id in
    let (linked, history) = write_history new_id db d input now in
    if input.delete_operational_row
    then (
      remove_operational_row d input now scope history.id linked,
      record { history = some history; archived = true; deleted = true },
    )
    else (linked, record { history = some history; archived = true; deleted = false })

-- `clock` is the time of the transaction; `new_id` is the id that a new history row gets.
unfoldable pub archive_delivery_in_transaction :
    ℕ → ℕ → Db → ArchiveInput → Result (Db × ArchiveResult)
archive_delivery_in_transaction new_id clock db input = elim (find_delivery input.delivery_id db) [
  | none ↦ ok (
    db,
    record { history = find_history input.delivery_id db; archived = false; deleted = false },
  )
  | some d ↦
      if status_differs input.expected_status d
      then failed
      else if updated_after input.updated_before d
      then failed
      else ok (archive_found new_id db d input (or_else input.occurred_at clock))
]
