-- ===== src/ArchiveJob.antt =====
-- backend/src/modules/scheduler/deliveryJobs.ts: archiveDeliveries.
-- The job's history rows are not modelled. No query of the job fails here, and nothing else runs meanwhile.
pub mod Turns
pub mod Laws
pub mod Job
use delivery_driver_manageme.Base.{
  ℕ, suc, zero, ◌+◌, ◌==◌, ltb, leb, Bool, true, false, not, ◌&&◌, ◌||◌, if◌then◌else◌, same,
  is_some, length, Option, none, some, List, [], ◌∷◌, any, count_by, select, update_by, ◌===◌,
  Result, ok, thrown, failed,
}
use delivery_driver_manageme.Schema.{
  DeliveryStatus, status_eq, FinalStatus, final_eq, Delivery, DeliveryHistory, HistoryEvent,
}
use delivery_driver_manageme.Store.{Db}
use delivery_driver_manageme.Archive.{
  ArchiveInput, ArchiveReason, ArchiveResult, find_history, archive_delivery_in_transaction,
}
use delivery_driver_manageme.AutoAssign.{auto_assign_actor}
use delivery_driver_manageme.NoShow.{JobResult}

-- The job's row, its texts, and the time before which a cancelled delivery is due.
pub record ArchiveJob : Type 0 where
  pub run_id : ℕ
  pub label : ℕ
  pub completed_reason : ℕ
  pub cutoff : ℕ

-- The `where` of the candidates.
unfoldable pub is_due : ArchiveJob → Delivery → Bool
is_due job d =
    d.status === DeliveryStatus.completed
    || d.status === DeliveryStatus.cancelled
      && is_some d.cancel_reason
      && leb d.updated_at job.cutoff

unfoldable pub take {ℓ} : {A : Type ℓ} → ℕ → List A → List A
take zero xs = []
take (suc n) [] = []
take (suc n) (x ∷ xs) = x ∷ take n xs

unfoldable pub drop {ℓ} : {A : Type ℓ} → ℕ → List A → List A
drop zero xs = xs
drop (suc n) [] = []
drop (suc n) (x ∷ xs) = drop n xs

abbrev final_of : Option DeliveryHistory → Option FinalStatus
final_of none = none
final_of (some h) = some h.final_status

abbrev is_final : FinalStatus → Option FinalStatus → Bool
is_final s none = false
is_final s (some t) = t === s

-- `historyByDelivery.get(candidate.id)`
abbrev pub recorded_as : Db → ℕ → Option FinalStatus
recorded_as db i = final_of (find_history i db)

unfoldable pub is_ready : Db → Delivery → Bool
is_ready db d = is_final FinalStatus.completed (recorded_as db d.id)

-- A history row with another status.
unfoldable pub is_unexpected : Db → Delivery → Bool
is_unexpected db d = is_some (recorded_as db d.id) && not (is_ready db d)

-- The rows that the `DELETE` matches.
unfoldable pub is_deleted : Db → List Delivery → Delivery → Bool
is_deleted db ready d =
    any (λ (r : Delivery). r.id == d.id) ready
    && d.status === DeliveryStatus.completed
    && is_ready db d

abbrev names_deleted : List Delivery → HistoryEvent → Bool
names_deleted gone e = any (λ (d : Delivery). same e.delivery_registration_id (some d.id)) gone

abbrev forget_delivery : HistoryEvent → HistoryEvent
forget_delivery e = record e { delivery_registration_id = none }

-- The `DELETE`; the events' foreign key is `ON DELETE SET NULL`.
unfoldable pub delete_ready : List Delivery → Db → Db
delete_ready ready db = record db {
  deliveries = select (λ d. not (is_deleted db ready d)) db.deliveries;
  events =
      update_by (names_deleted (select (is_deleted db ready) db.deliveries)) forget_delivery
        db.events;
}

abbrev pub succeed : ℕ → JobResult → JobResult
succeed n r = record r { succeeded = r.succeeded + n }

abbrev pub fail : ℕ → JobResult → JobResult
fail n r = record r { failed = r.failed + n }

abbrev is_kept : Db → List Delivery → Delivery → Bool
is_kept db ready r =
    not (any (λ (d : Delivery). d.id == r.id) (select (is_deleted db ready) db.deliveries))

-- The candidates of a batch whose completion is in the history already.
unfoldable pub remove_ready : List Delivery → Db × JobResult → Db × JobResult
remove_ready [] (db, r) = (db, r)
remove_ready (d ∷ ds) (db, r) = (
  delete_ready (d ∷ ds) db,
  fail (count_by (is_kept db (d ∷ ds)) (d ∷ ds))
      (succeed (count_by (is_deleted db (d ∷ ds)) db.deliveries) r),
)

unfoldable pub completed_input : ArchiveJob → Delivery → ArchiveInput
completed_input job d = record {
  delivery_id = d.id;
  final_status = FinalStatus.completed;
  archive_reason = ArchiveReason.completed;
  close_reason = some job.completed_reason;
  job_run_id = some job.run_id;
  occurred_at = none;
  delete_operational_row = true;
  expected_status = some DeliveryStatus.completed;
  updated_before = none;
  actor = auto_assign_actor job.label;
}

unfoldable pub cancelled_input : ArchiveJob → ℕ → Delivery → ArchiveInput
cancelled_input job now d = record {
  delivery_id = d.id;
  final_status = FinalStatus.cancelled;
  archive_reason = ArchiveReason.cancelled;
  close_reason = d.cancel_reason;
  job_run_id = some job.run_id;
  occurred_at = some now;
  delete_operational_row = true;
  expected_status = some DeliveryStatus.cancelled;
  updated_before = some job.cutoff;
  actor = auto_assign_actor job.label;
}

-- A delivery that was not deleted counts as an error, though its transaction is written.
unfoldable pub count_archived : Db → JobResult → Result (Db × ArchiveResult) → Db × JobResult
count_archived db r (ok (db', a)) = if a.deleted then (db', succeed 1 r) else (db', fail 1 r)
count_archived db r (thrown e) = (db, fail 1 r)
count_archived db r failed = (db, fail 1 r)

-- One by one. In the turn with `k` deliveries left, `new_id k` is the id of a history row and `clock k` the
-- time.
unfoldable pub archive_each :
    (ℕ → Delivery → ArchiveInput)
    → (ℕ → ℕ)
    → (ℕ → ℕ)
    → List Delivery
    → Db × JobResult
    → Db × JobResult
archive_each input new_id clock [] (db, r) = (db, r)
archive_each input new_id clock (d ∷ ds) (db, r) =
    let k = length ds in
    archive_each input new_id clock ds (
      count_archived db r
        (archive_delivery_in_transaction (new_id k) (clock k) db (input (clock k) d)))

unfoldable pub archive_batch :
    ArchiveJob → (ℕ → ℕ) → (ℕ → ℕ) → List Delivery → Db × JobResult → Db × JobResult
archive_batch job new_id clock batch (db, r) =
    archive_each (λ now. completed_input job) new_id clock
      (select (λ d. not (is_some (recorded_as db d.id))) batch)
      (remove_ready (select (is_ready db) batch) (db, fail (count_by (is_unexpected db) batch) r))

-- The loop over batches of 500; every turn takes one candidate at least.
unfoldable pub archive_batches :
    ArchiveJob → (ℕ → ℕ) → (ℕ → ℕ) → ℕ → List Delivery → Db × JobResult → Db × JobResult
archive_batches job new_id clock zero ds state = state
archive_batches job new_id clock (suc fuel) [] state = state
archive_batches job new_id clock (suc fuel) (d ∷ ds) state =
    archive_batches job new_id clock fuel (drop 500 (d ∷ ds))
      (archive_batch job new_id clock (take 500 (d ∷ ds)) state)

abbrev pub due : ArchiveJob → Db → List Delivery
due job db = select (is_due job) db.deliveries

abbrev pub with_status : DeliveryStatus → List Delivery → List Delivery
with_status s ds = select (λ (d : Delivery). d.status === s) ds

unfoldable pub archive_deliveries : ArchiveJob → (ℕ → ℕ) → (ℕ → ℕ) → Db → Db × JobResult
archive_deliveries job new_id clock db =
    let completed = with_status DeliveryStatus.completed (due job db) in
    let cancelled = with_status DeliveryStatus.cancelled (due job db) in
    archive_each (cancelled_input job) new_id clock cancelled (
      archive_batches job new_id clock (length completed) completed
        (db, record { processed = length (due job db); succeeded = 0; failed = 0 }))
