-- ===== src/ArchiveJob/Job.antt =====
-- The whole job: its batches, then the cancelled deliveries.
use delivery_driver_manageme.Base.{
  ℕ, suc, zero, ◌≤◌, ◌≡◌, refl, false, not, some, List, [], ◌∷◌, arith, select, length, count_by,
  is_some,
}
use delivery_driver_manageme.Schema.{DeliveryStatus, status_eq, Delivery}
use delivery_driver_manageme.Store.{Db}
use delivery_driver_manageme.Archive.{status_differs}
use delivery_driver_manageme.CloseDay.Laws.{IsSound}
use delivery_driver_manageme.NoShow.{JobResult}
use delivery_driver_manageme.ArchiveJob.{
  ArchiveJob, is_ready, is_unexpected, recorded_as, completed_input, cancelled_input, archive_each,
  remove_ready, archive_batch, archive_batches, take, drop, archive_deliveries, fail, due,
  with_status,
}
use delivery_driver_manageme.ArchiveJob.Turns.{
  IsArchivable, IsSafe, nothing-IsSafe, then-IsSafe, delete_ready-IsSafe,
}
use delivery_driver_manageme.ArchiveJob.Laws.{IsJobInput, archive_each-IsSafe}

expected_status :
    (s : DeliveryStatus) (d : Delivery) → status_differs (some s) d ≡ false → d.status ≡ s
expected_status s d same = (status_eq.eq_iff d.status s).0 (ground (arith, same))

module _ (job : ArchiveJob) where
  pub completed_input-IsJobInput : (d : Delivery) → IsJobInput job.cutoff (completed_input job d)
  unfolding completed_input
  completed_input-IsJobInput d = record {
    deletes = refl;
    guarded = λ x same early.
        IsArchivable.was_completed (expected_status DeliveryStatus.completed x same);
  }

  pub cancelled_input-IsJobInput :
      (now : ℕ) (d : Delivery) → IsJobInput job.cutoff (cancelled_input job now d)
  unfolding cancelled_input
  cancelled_input-IsJobInput now d = record {
    deletes = refl;
    guarded = λ x same early.
        IsArchivable.was_cancelled (expected_status DeliveryStatus.cancelled x same)
          (ground (arith, early));
  }

  module _ (new_id clock : ℕ → ℕ) where
    remove_ready-IsSafe :
        (ready : List Delivery) (db : Db) (r : JobResult)
        → IsSound db
        → IsSafe job.cutoff db (remove_ready ready (db, r)).0
    unfolding remove_ready
    remove_ready-IsSafe [] db r sound = nothing-IsSafe job.cutoff db sound
    remove_ready-IsSafe (d ∷ ds) db r sound = delete_ready-IsSafe job.cutoff db (d ∷ ds) sound

    archive_batch-IsSafe :
        (batch : List Delivery) (state : Db × JobResult)
        → IsSound state.0
        → IsSafe job.cutoff state.0 (archive_batch job new_id clock batch state).0
    unfolding archive_batch
    archive_batch-IsSafe batch (db, r) sound =
        let missing = select (λ d. not (is_some (recorded_as db d.id))) batch in
        let removed =
          remove_ready (select (is_ready db) batch)
            (db, fail (count_by (is_unexpected db) batch) r) in
        let first =
          remove_ready-IsSafe (select (is_ready db) batch) db
            (fail (count_by (is_unexpected db) batch) r) sound in
        then-IsSafe job.cutoff db removed.0
          (archive_each (λ now. completed_input job) new_id clock missing removed).0 first
          (archive_each-IsSafe job.cutoff (λ now. completed_input job)
            (λ now. completed_input-IsJobInput) new_id clock removed.0 missing removed.1
            first.sound)

    archive_batches-IsSafe :
        (fuel : ℕ) (ds : List Delivery) (state : Db × JobResult)
        → IsSound state.0
        → IsSafe job.cutoff state.0 (archive_batches job new_id clock fuel ds state).0
    unfolding archive_batches
    archive_batches-IsSafe zero ds state sound = nothing-IsSafe job.cutoff state.0 sound
    archive_batches-IsSafe (suc fuel) [] state sound = nothing-IsSafe job.cutoff state.0 sound
    archive_batches-IsSafe (suc fuel) (d ∷ ds) state sound =
        let batch = take 500 (d ∷ ds) in
        let rest = drop 500 (d ∷ ds) in
        let next = archive_batch job new_id clock batch state in
        let first = archive_batch-IsSafe batch state sound in
        then-IsSafe job.cutoff state.0 next.0 (archive_batches job new_id clock fuel rest next).0
          first (archive_batches-IsSafe fuel rest next first.sound)

    -- From a consistent yard with one history row per delivery, the job that archives leaves such a yard.
    -- Every delivery and its history row are as they were, or the delivery is gone: then it was completed,
    -- or cancelled and not written since the cutoff, and its history row has the final status of that.
    pub archive_deliveries-IsSafe :
        (db : Db) → IsSound db → IsSafe job.cutoff db (archive_deliveries job new_id clock db).0
    unfolding archive_deliveries
    archive_deliveries-IsSafe db sound =
        let completed = with_status DeliveryStatus.completed (due job db) in
        let cancelled = with_status DeliveryStatus.cancelled (due job db) in
        let start : Db × JobResult =
          (db, record { processed = length (due job db); succeeded = 0; failed = 0 }) in
        let batched = archive_batches job new_id clock (length completed) completed start in
        let first = archive_batches-IsSafe (length completed) completed start sound in
        then-IsSafe job.cutoff db batched.0
          (archive_each (cancelled_input job) new_id clock cancelled batched).0 first
          (archive_each-IsSafe job.cutoff (cancelled_input job) cancelled_input-IsJobInput new_id
            clock batched.0 cancelled batched.1 first.sound)

length-drop : (n : ℕ) (ds : List Delivery) → length (drop n ds) ≤ length ds
unfolding drop
length-drop zero ds = omega arith
length-drop (suc n) [] = omega arith
length-drop (suc n) (d ∷ ds) = omega (arith, length-drop n ds)

-- Fuel for every candidate is enough: more changes nothing.
pub archive_batches_enough :
    (job : ArchiveJob) (new_id clock : ℕ → ℕ) (fuel more : ℕ) (ds : List Delivery)
    (state : Db × JobResult)
    → length ds ≤ fuel
    → length ds ≤ more
    → archive_batches job new_id clock fuel ds state
      ≡ archive_batches job new_id clock more ds state
unfolding archive_batches drop
archive_batches_enough job new_id clock zero zero ds state h k = refl
archive_batches_enough job new_id clock zero (suc more) [] state h k = refl
archive_batches_enough job new_id clock (suc fuel) zero [] state h k = refl
archive_batches_enough job new_id clock (suc fuel) (suc more) [] state h k = refl
archive_batches_enough job new_id clock zero (suc more) (d ∷ ds) state h k =
    absurd (omega (arith, h))
archive_batches_enough job new_id clock (suc fuel) zero (d ∷ ds) state h k =
    absurd (omega (arith, k))
archive_batches_enough job new_id clock (suc fuel) (suc more) (d ∷ ds) state h k =
    archive_batches_enough job new_id clock fuel more (drop 500 (d ∷ ds))
      (archive_batch job new_id clock (take 500 (d ∷ ds)) state)
      (omega (arith, h, length-drop 499 ds)) (omega (arith, k, length-drop 499 ds))
