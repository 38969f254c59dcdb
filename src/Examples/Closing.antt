-- ===== src/Examples/Closing.antt =====
-- The theorems on closing and archiving, at the small yard.
use delivery_driver_manageme.Base.{
  arith, any, count_by, ℕ, ◌+◌, ◌≡◌, ◌⊎◌, refl, true, false, some, none, [], ◌∷◌, All, Unique, ok,
  failed, find_by,
}
use delivery_driver_manageme.Schema.{
  DeliveryStatus, FinalStatus, maintenance, status_eq, Slot, Delivery, DeliveryHistory,
}
use delivery_driver_manageme.Store.{Db, find_delivery, find_slot}
use delivery_driver_manageme.SlotState.{is_manual_slot_status, is_active_at}
use delivery_driver_manageme.Consistency.{IsConsistent}
use delivery_driver_manageme.Lifecycle.{mark_completed}
use delivery_driver_manageme.Archive.{
  ArchiveInput, ArchiveReason, original_id, find_history, status_differs, updated_after,
  archive_found, write_history, archive_delivery_in_transaction,
}
use delivery_driver_manageme.Archive.Effects.{
  IsArchived, archive_delivery_in_transaction_effect, archive_delivery_in_transaction_again,
}
use delivery_driver_manageme.Archive.Yard.{archive_deleted-unmanual}
use delivery_driver_manageme.CloseDay.{CloseArgs, CloseJob, close_daily_deliveries, ends_unfinished}
use delivery_driver_manageme.CloseDay.Laws.{IsSound}
use delivery_driver_manageme.CloseDay.Job.{
  close_daily_deliveries_effect, close_daily_deliveries_complete,
}
use delivery_driver_manageme.ArchiveJob.{ArchiveJob, archive_deliveries}
use delivery_driver_manageme.ArchiveJob.Turns.{IsSafe}
use delivery_driver_manageme.ArchiveJob.Job.{archive_deliveries-IsSafe}
use delivery_driver_manageme.Reception.{complete}
use delivery_driver_manageme.Reception.Completion.{complete_effect}
use delivery_driver_manageme.Examples.{
  yard, yard-IsConsistent, staff, slot_1, truck_of, truck_21, find_21,
}
use delivery_driver_manageme.Examples.Receptions.{clerk, granted, has_access}

abbrev truck_24 : Delivery
truck_24 = record (truck_of 24 DeliveryStatus.completed) { assigned_slot_id = some 1 }

-- A completed delivery, whose slot has been taken out of service since.
abbrev repaired : Db
repaired = record yard {
  slots = record slot_1 { status = maintenance } ∷ [];
  deliveries = truck_24 ∷ [];
}

abbrev input_24 : ArchiveInput
input_24 = record {
  delivery_id = 24;
  final_status = FinalStatus.completed;
  archive_reason = ArchiveReason.completed;
  close_reason = some 8;
  job_run_id = some 2;
  occurred_at = none;
  delete_operational_row = true;
  expected_status = some DeliveryStatus.completed;
  updated_before = none;
  actor = staff;
}

find_24 : find_delivery 24 repaired ≡ some truck_24
unfolding find_by
find_24 = refl

find_slot_in_repair : find_slot 1 repaired ≡ some (record slot_1 { status = maintenance })
unfolding find_by
find_slot_in_repair = refl

archive_delivery_in_transaction_effect_example :
    ((archive_delivery_in_transaction 70 500 repaired input_24 ≡ failed)
      × ((status_differs (some DeliveryStatus.completed) truck_24 ≡ true)
          ⊎ (updated_after none truck_24 ≡ true)))
    ⊎ ((status_differs (some DeliveryStatus.completed) truck_24 ≡ false)
        × (updated_after none truck_24 ≡ false)
        × ((db' : Db) × (h : DeliveryHistory) × (archive_delivery_in_transaction 70 500 repaired
                input_24
              ≡ ok (db', record { history = some h; archived = true; deleted = true }))
            × IsArchived repaired truck_24 input_24 500 db' h))
archive_delivery_in_transaction_effect_example =
    archive_delivery_in_transaction_effect 70 500 repaired input_24 truck_24 tt find_24

archive_delivery_in_transaction_again_example :
    archive_delivery_in_transaction 71 600
      (archive_found 70 repaired truck_24 input_24 500).0
      input_24
    ≡ ok (
      (archive_found 70 repaired truck_24 input_24 500).0,
      record {
        history = some (write_history 70 repaired truck_24 input_24 500).1;
        archived = false;
        deleted = false;
      },
    )
archive_delivery_in_transaction_again_example =
    archive_delivery_in_transaction_again 70 500 repaired input_24 truck_24 tt find_24 refl 71 600
      input_24 refl

archive_deleted-unmanual_example :
    (t : Slot) × (find_slot 1 (archive_found 70 repaired truck_24 input_24 500).0 ≡ some t)
    × (is_manual_slot_status t.status ≡ false)
archive_deleted-unmanual_example =
    archive_deleted-unmanual 70 500 repaired truck_24 input_24 1
      (record slot_1 { status = maintenance }) refl refl refl find_slot_in_repair

abbrev today : CloseArgs
today = record { start = 0; end = 100; business_location_id = none; unit_config_ids = none }

abbrev job : CloseJob
job = record {
  run_id = 2;
  label = 3;
  no_show_reason = 4;
  no_show_note = 5;
  incompleted_reason = 6;
  no_unit_scope = 9;
}

yard-IsSound : IsSound yard
yard-IsSound = record { consistent = yard-IsConsistent; once = tt }

abbrev quiet : ℕ → Db → Db
quiet k db = db

close_daily_deliveries_effect_example :
    let (db', r) = close_daily_deliveries today job 99 (λ k. 70) quiet yard in
    IsSound db' × (r.failed ≡ 0) × (r.succeeded + r.skipped ≡ r.processed)
close_daily_deliveries_effect_example =
    close_daily_deliveries_effect today job 99 (λ k. 70) quiet (λ k db s. s) yard yard-IsSound

close_daily_deliveries_complete_example :
    let db' = (close_daily_deliveries today job 99 (λ k. 70) (λ k x. x) yard).0 in
    All (λ d. (ends_unfinished today d ≡ false) × (find_delivery d.id yard ≡ some d)) db'.deliveries
close_daily_deliveries_complete_example =
    close_daily_deliveries_complete today job refl refl 99 (λ k. 70) yard yard-IsSound

complete_effect_example :
    (db' : Db) × (r : DeliveryHistory) × (complete granted yard 21 70 8 (some clerk) staff 100
      ≡ ok (db', mark_completed 100 truck_21, false))
    × (find_delivery 21 db' ≡ some (mark_completed 100 truck_21))
    × (find_history 21 db' ≡ some r)
    × (r.final_status ≡ FinalStatus.completed)
    × (r.close_reason ≡ some 8)
    × Unique original_id db'.histories
    × IsConsistent db'
complete_effect_example =
    complete_effect granted yard (some clerk) staff 100 70 8 truck_21 yard-IsConsistent tt find_21
      has_access refl

abbrev clean_up : ArchiveJob
clean_up = record { run_id = 2; label = 3; completed_reason = 8; cutoff = 400 }

repaired-IsSound : IsSound repaired
unfolding is_active_at count_by any
repaired-IsSound = record {
  consistent = record {
    keyed = record {
      deliveries_unique = (refl, tt);
      slots_unique = (refl, tt);
      slots_named = (refl, tt);
    };
    settled = (((λ e. cc), (λ e. cc)), tt);
    within = (omega arith, tt);
  };
  once = tt;
}

archive_deliveries-IsSafe_example :
    IsSafe 400 repaired (archive_deliveries clean_up (λ k. 70 + k) (λ k. 500) repaired).0
archive_deliveries-IsSafe_example =
    archive_deliveries-IsSafe clean_up (λ k. 70 + k) (λ k. 500) repaired repaired-IsSound
