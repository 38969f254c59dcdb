-- ===== src/CloseDay.antt =====
-- backend/src/modules/scheduler/deliveryJobs.ts: closeDailyDeliveries.
-- The job's history rows and the push messages are not modelled. No query of the job fails here.
pub mod Laws
pub mod Job
use delivery_driver_manageme.Base.{
  ℕ, ◌+◌, ltb, leb, Bool, true, false, not, ◌&&◌, ◌||◌, if◌then◌else◌, same, is_truthy, bit, length,
  Option, none, some, List, [], ◌∷◌, any, select, ◌===◌, ok, failed, thrown, Result,
}
use delivery_driver_manageme.Schema.{
  DeliveryStatus, receiving, auto_warehouse_receiving, status_eq, FinalStatus, Slot, Delivery,
  Actor,
}
use delivery_driver_manageme.Store.{
  Db, find_delivery, find_slot, update_delivery, slot_location_id, config_of, location_of,
}
use delivery_driver_manageme.Archive.{
  ArchiveInput, ArchiveReason, ArchiveResult, archive_delivery_in_transaction,
}
use delivery_driver_manageme.AutoAssign.{auto_assign_actor}

pub record CloseArgs : Type 0 where
  pub start : ℕ
  pub end : ℕ
  pub business_location_id : Option ℕ
  pub unit_config_ids : Option (List ℕ)

-- The job's texts, its row, and the unit id that no unit has.
pub record CloseJob : Type 0 where
  pub run_id : ℕ
  pub label : ℕ
  pub no_show_reason : ℕ
  pub no_show_note : ℕ
  pub incompleted_reason : ℕ
  pub no_unit_scope : ℕ

-- `{ gte: start, lt: end }`, which no null satisfies.
unfoldable pub in_range : CloseArgs → Option ℕ → Bool
in_range args none = false
in_range args (some t) = leb args.start t && ltb t args.end

-- On the day that was asked for, or without one on the day of `other_time`.
abbrev on_day : CloseArgs → Option ℕ → Option ℕ → Bool
on_day args none other_time = in_range args other_time
on_day args (some t) other_time = in_range args (some t)

unfoldable pub ends_unfinished : CloseArgs → Delivery → Bool
ends_unfinished args d =
    d.status === DeliveryStatus.registered && on_day args d.requested_time (some d.created_at)
    || (d.status === receiving || d.status === auto_warehouse_receiving)
      && on_day args d.requested_time d.checkin_time

abbrev slot_at : Option ℕ → Db → Option Slot
slot_at none db = none
slot_at (some i) db = find_slot i db

abbrev location_at : Option Slot → Db → Option ℕ
location_at none db = none
location_at (some s) db = slot_location_id s db

abbrev at_location : Db → Option ℕ → Delivery → Bool
at_location db none d = true
at_location db (some b) d =
    not (is_truthy (some b))
    || same (location_of (config_of d.unit_config_id db)) (some b)
    || same (location_at (slot_at d.assigned_slot_id db) db) (some b)

abbrev of_units : ℕ → Option (List ℕ) → Delivery → Bool
of_units no_unit_scope none d = true
of_units no_unit_scope (some []) d = same d.unit_config_id (some no_unit_scope)
of_units no_unit_scope (some (u ∷ us)) d = any (λ v. same d.unit_config_id (some v)) (u ∷ us)

-- `candidateWhere`
unfoldable pub is_unfinished : CloseArgs → CloseJob → Db → Delivery → Bool
is_unfinished args job db d =
    ends_unfinished args d
    && at_location db args.business_location_id d
    && of_units job.no_unit_scope args.unit_config_ids d

abbrev pub is_expired : Delivery → Bool
is_expired d = d.status === DeliveryStatus.registered

unfoldable pub closed_status : Bool → DeliveryStatus
closed_status expired = if expired then DeliveryStatus.expired else DeliveryStatus.incompleted

unfoldable pub final_status_of : Bool → FinalStatus
final_status_of expired = if expired then FinalStatus.expired else FinalStatus.incompleted

abbrev reason_for : CloseJob → Bool → ℕ
reason_for job expired = if expired then job.no_show_reason else job.incompleted_reason

unfoldable pub mark_closed : CloseJob → ℕ → Delivery → Delivery
mark_closed job now d = record d {
  status = closed_status (is_expired d);
  note = some (if is_expired d then job.no_show_note else job.incompleted_reason);
  updated_at = now;
}

unfoldable pub close_input : CloseJob → ℕ → Delivery → ArchiveInput
close_input job now d = record {
  delivery_id = d.id;
  final_status = final_status_of (is_expired d);
  archive_reason =
      if is_expired d then ArchiveReason.expired_no_show else ArchiveReason.incompleted;
  close_reason = some (reason_for job (is_expired d));
  job_run_id = some job.run_id;
  occurred_at = some now;
  delete_operational_row = true;
  expected_status = some (closed_status (is_expired d));
  updated_before = none;
  actor = auto_assign_actor job.label;
}

pub data Turn : Type 0 where
  closed skipped refused : Turn

-- A transaction that throws writes nothing.
abbrev committed : Db → Result (Db × ArchiveResult) → Db × Turn
committed db (ok (db', r)) = if r.deleted then (db', closed) else (db, refused)
committed db (thrown e) = (db, refused)
committed db failed = (db, refused)

unfoldable pub close_found : CloseArgs → CloseJob → ℕ → ℕ → Db → Delivery → Db × Turn
close_found args job now new_id db current =
    if not (is_unfinished args job db current)
    then (db, skipped)
    else committed db (
        archive_delivery_in_transaction new_id now
          (update_delivery current.id (mark_closed job now) db) (close_input job now current))

-- The transaction for one candidate. `new_id` is the id of its history row.
unfoldable pub close_candidate : CloseArgs → CloseJob → ℕ → ℕ → Db → ℕ → Db × Turn
close_candidate args job now new_id db i = elim (find_delivery i db) [
  | none ↦ (db, skipped)
  | some current ↦ close_found args job now new_id db current
]

pub record CloseResult : Type 0 where
  pub processed : ℕ
  pub succeeded : ℕ
  pub skipped : ℕ
  pub failed : ℕ

unfoldable pub count_turn : Turn → CloseResult → CloseResult
count_turn closed r = record r { succeeded = r.succeeded + 1 }
count_turn skipped r = record r { skipped = r.skipped + 1 }
count_turn refused r = record r { failed = r.failed + 1 }

-- The loop over the candidates. `others k` is what other transactions write before the turn with `k`
-- candidates left, and `new_id k` the id of a history row of that turn.
unfoldable pub close_each :
    CloseArgs
    → CloseJob
    → ℕ
    → (ℕ → ℕ)
    → (ℕ → Db → Db)
    → Db
    → List Delivery
    → CloseResult
    → Db × CloseResult
close_each args job now new_id others db [] r = (db, r)
close_each args job now new_id others db (d ∷ ds) r =
    let (db', turn) =
      close_candidate args job now (new_id (length ds)) (others (length ds) db) d.id in
    close_each args job now new_id others db' ds (count_turn turn r)

abbrev pub unfinished : CloseArgs → CloseJob → Db → List Delivery
unfinished args job db = select (is_unfinished args job db) db.deliveries

unfoldable pub close_daily_deliveries :
    CloseArgs → CloseJob → ℕ → (ℕ → ℕ) → (ℕ → Db → Db) → Db → Db × CloseResult
close_daily_deliveries args job now new_id others db =
    close_each args job now new_id others db (unfinished args job db) (record {
      processed = length (unfinished args job db);
      succeeded = 0;
      skipped = 0;
      failed = 0;
    })
