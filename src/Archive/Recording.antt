-- ===== src/Archive/Recording.antt =====
-- backend/src/modules/history/archiveService.ts: the history row written and the delivery deleted.
use delivery_driver_manageme.Base.{
  ℕ, ◌==◌, ◌≡◌, refl, ap, sym, ◌∙◌, false, Option, none, some, inl, inr, Bool-cases, Unique, subst,
  find_row, find_row-delete_row_self, find_row-delete_row_ne, delete_row,
}
use delivery_driver_manageme.Schema.{Delivery, DeliveryHistory}
use delivery_driver_manageme.Store.{Db, delivery_id, find_delivery}
use delivery_driver_manageme.SlotState.Laws.{reconcile_slot_state-update}
use delivery_driver_manageme.History.{DeliveryScope, resolve_delivery_scope}
use delivery_driver_manageme.Archive.{
  ArchiveInput, original_id, find_history, upsert_history, created_history, write_history,
  remove_operational_row, reconcile_forced,
}
use delivery_driver_manageme.Archive.Rows.{
  SameRows, recorded_events, recorded_events-SameRows, IsRecordOf, find_history-upsert_history,
  find_history-upsert_history_ne, upsert_history-Unique, upsert_history-yard,
  upsert_history-IsRecordOf, created_history-IsRecordOf,
}

module _ (new_id : ℕ) (db : Db) (d : Delivery) (input : ArchiveInput) (now : ℕ) where
  abbrev scope : DeliveryScope
  scope = resolve_delivery_scope db d.unit_config_id d.assigned_slot_id

  abbrev recorded : Db
  recorded = recorded_events d input now scope db

  abbrev row : DeliveryHistory
  row = created_history new_id recorded d input now scope

  events_only : SameRows db recorded
  events_only = recorded_events-SameRows d input now scope db

  row-of : row.original_delivery_id ≡ d.id
  row-of = (created_history-IsRecordOf new_id recorded d input now scope).of_delivery

  -- The deliveries and the slots stay.
  pub write_history-yard :
      ((write_history new_id db d input now).0.deliveries ≡ db.deliveries)
      × ((write_history new_id db d input now).0.slots ≡ db.slots)
  unfolding write_history
  write_history-yard =
      let kept = upsert_history-yard row recorded in
      (kept.0 ∙ events_only.0, kept.1 ∙ events_only.1)

  -- The row of the delivery is the one that is answered, and records it.
  pub write_history-row :
      (find_history d.id (write_history new_id db d input now).0
        ≡ some (write_history new_id db d input now).1)
      × IsRecordOf d input now (write_history new_id db d input now).1
  unfolding write_history
  write_history-row = (
    subst
        (λ z. find_history z (upsert_history row recorded).0 ≡ some (upsert_history row recorded).1)
        row-of (find_history-upsert_history row recorded),
    upsert_history-IsRecordOf row recorded d input now
        (created_history-IsRecordOf new_id recorded d input now scope),
  )

  pub write_history-others :
      (j : ℕ)
      → (d.id == j) ≡ false
      → find_history j (write_history new_id db d input now).0 ≡ find_history j db
  unfolding write_history
  write_history-others j ne =
      find_history-upsert_history_ne row recorded j (subst (λ z. (z == j) ≡ false) (sym row-of) ne)
      ∙ ap (find_row original_id j) events_only.2

  pub write_history-Unique :
      Unique original_id db.histories
      → Unique original_id (write_history new_id db d input now).0.histories
  unfolding write_history
  write_history-Unique u =
      upsert_history-Unique row recorded (subst (Unique original_id) (sym events_only.2) u)

abbrev SameArchive : Db → Db → Type 0
SameArchive db db' = (db'.deliveries ≡ db.deliveries) × (db'.histories ≡ db.histories)

reconcile_forced-SameArchive : (i : Option ℕ) (db : Db) → SameArchive db (reconcile_forced i db)
unfolding reconcile_forced
reconcile_forced-SameArchive none db = (refl, refl)
reconcile_forced-SameArchive (some i) db = elim (Bool-cases (i == 0)) [
  | inl empty ↦ rw empty (refl, refl)
  | inr named ↦ rw (named, reconcile_slot_state-update db i false) (refl, refl)
]

module _ (d : Delivery) (input : ArchiveInput) (now : ℕ) (scope : DeliveryScope) (history_id : ℕ)
    (db : Db) where
  abbrev removed : Db
  removed = remove_operational_row d input now scope history_id db

  pub remove_operational_row-rows :
      (removed.deliveries ≡ delete_row delivery_id d.id db.deliveries)
      × (removed.histories ≡ db.histories)
  unfolding remove_operational_row
  remove_operational_row-rows =
      let kept = reconcile_forced-SameArchive d.assigned_slot_id _ in
      (ap (delete_row delivery_id d.id) kept.0, kept.1)

  pub remove_operational_row-gone : find_delivery d.id removed ≡ none
  remove_operational_row-gone =
      ap (find_row delivery_id d.id) remove_operational_row-rows.0
      ∙ find_row-delete_row_self delivery_id d.id db.deliveries

  pub remove_operational_row-others :
      (j : ℕ) → (d.id == j) ≡ false → find_delivery j removed ≡ find_delivery j db
  remove_operational_row-others j ne =
      ap (find_row delivery_id j) remove_operational_row-rows.0
      ∙ find_row-delete_row_ne delivery_id d.id j db.deliveries ne
