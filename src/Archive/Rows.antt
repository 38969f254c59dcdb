-- ===== src/Archive/Rows.antt =====
-- What the archive writes beside the history row changes no delivery and no slot.
use delivery_driver_manageme.Base.{
  ℕ, ◌==◌, ◌≡◌, refl, none, some, List, ◌∷◌, inl, inr, arith, ltb, Bool-cases, Option-cases,
  count_by, find_row, Unique, find_by, ==_refl, has_row, false, find_row-update_row_self,
  find_row-update_row_ne, update_row-Unique, key-find_row, any, ◌∙◌, [],
}
use delivery_driver_manageme.Schema.{Delivery, HistoryEvent, DeliveryHistory}
use delivery_driver_manageme.Store.{Db}
use delivery_driver_manageme.History.{DeliveryScope}
use delivery_driver_manageme.Archive.{
  ArchiveInput, reason_of, is_event_of, ensure_event, ensure_registered_event, ensure_close_event,
  created_history, updated_history, original_id, find_history, upsert_history,
}

-- The same deliveries, slots and history rows.
abbrev pub SameRows : Db → Db → Type 0
SameRows db db' =
    (db'.deliveries ≡ db.deliveries) × (db'.slots ≡ db.slots) × (db'.histories ≡ db.histories)

ensure_event-SameRows : (e : HistoryEvent) (db : Db) → SameRows db (ensure_event e db)
unfolding ensure_event
ensure_event-SameRows e db =
    elim (Bool-cases
      (ltb 0 (count_by (is_event_of e.original_delivery_id e.event_type) db.events))) [
        | inl known ↦ rw (known, ensure_event) (refl, refl, refl)
        | inr fresh ↦ rw (fresh, ensure_event) (refl, refl, refl)
      ]

abbrev pub recorded_events : Delivery → ArchiveInput → ℕ → DeliveryScope → Db → Db
recorded_events d input now scope db =
    ensure_close_event d input now scope (ensure_registered_event d scope db)

pub recorded_events-SameRows :
    (d : Delivery) (input : ArchiveInput) (now : ℕ) (scope : DeliveryScope) (db : Db)
    → SameRows db (recorded_events d input now scope db)
recorded_events-SameRows d input now scope db =
    let first = ensure_event-SameRows _ db in
    let second = ensure_event-SameRows _ (ensure_registered_event d scope db) in
    (second.0 ∙ first.0, second.1 ∙ first.1, second.2 ∙ first.2)

has_row-none :
    (i : ℕ) (hs : List DeliveryHistory)
    → find_row original_id i hs ≡ none
    → has_row original_id i hs ≡ false
unfolding find_by any
has_row-none i [] h = refl
has_row-none i (x ∷ xs) h = ground (arith, has_row-none i xs)

-- The columns that a row about the delivery has, whether it is new or written again.
pub record IsRecordOf (d : Delivery) (input : ArchiveInput) (now : ℕ) (h : DeliveryHistory)
    : Type 0 where
  pub of_delivery : h.original_delivery_id ≡ d.id
  pub status_recorded : h.final_status ≡ input.final_status
  pub reason_recorded : h.close_reason ≡ reason_of input d
  pub completion_recorded : h.completed_time ≡ d.completed_time
  pub run_recorded : h.archived_by_job_run_id ≡ input.job_run_id
  pub time_recorded : h.archived_at ≡ now

module _ (new : DeliveryHistory) (db : Db) where
  -- After the `upsert` the row that it answers is the one of the delivery.
  pub find_history-upsert_history :
      find_history new.original_delivery_id (upsert_history new db).0
      ≡ some (upsert_history new db).1
  unfolding upsert_history find_by updated_history
  find_history-upsert_history = elim (Option-cases (find_history new.original_delivery_id db)) [
    | inl e ↦ rw (e, upsert_history, ==_refl new.original_delivery_id) refl
    | inr (old, e) ↦
        rw (e, upsert_history)
          (find_row-update_row_self original_id (updated_history new) (λ h. refl)
            new.original_delivery_id db.histories old e)
  ]

  pub find_history-upsert_history_ne :
      (j : ℕ)
      → (new.original_delivery_id == j) ≡ false
      → find_history j (upsert_history new db).0 ≡ find_history j db
  unfolding upsert_history find_by updated_history
  find_history-upsert_history_ne j ne =
      elim (Option-cases (find_history new.original_delivery_id db)) [
        | inl e ↦ rw (e, upsert_history, ne) refl
        | inr (old, e) ↦
            rw (e, upsert_history)
              (find_row-update_row_ne original_id (updated_history new) (λ h. refl)
                new.original_delivery_id j db.histories ne)
      ]

  -- A delivery has at most one row.
  pub upsert_history-Unique :
      Unique original_id db.histories → Unique original_id (upsert_history new db).0.histories
  unfolding upsert_history updated_history
  upsert_history-Unique u = elim (Option-cases (find_history new.original_delivery_id db)) [
    | inl e ↦ rw (e, upsert_history) (has_row-none new.original_delivery_id db.histories e, u)
    | inr (old, e) ↦
        rw (e, upsert_history)
          (update_row-Unique original_id (updated_history new) (λ h. refl) new.original_delivery_id
            db.histories u)
  ]

  pub upsert_history-yard :
      ((upsert_history new db).0.deliveries ≡ db.deliveries)
      × ((upsert_history new db).0.slots ≡ db.slots)
  unfolding upsert_history
  upsert_history-yard = elim (Option-cases (find_history new.original_delivery_id db)) [
    | inl e ↦ rw (e, upsert_history) (refl, refl)
    | inr (old, e) ↦ rw (e, upsert_history) (refl, refl)
  ]

  pub upsert_history-IsRecordOf :
      (d : Delivery) (input : ArchiveInput) (now : ℕ)
      → IsRecordOf d input now new
      → IsRecordOf d input now (upsert_history new db).1
  unfolding upsert_history updated_history
  upsert_history-IsRecordOf d input now r =
      elim (Option-cases (find_history new.original_delivery_id db)) [
        | inl e ↦ rw (e, upsert_history) r
        | inr (old, e) ↦
            rw (e, upsert_history)
              (record {
                of_delivery =
                    key-find_row original_id new.original_delivery_id db.histories old e
                    ∙ r.of_delivery;
                status_recorded = r.status_recorded;
                reason_recorded = r.reason_recorded;
                completion_recorded = r.completion_recorded;
                run_recorded = r.run_recorded;
                time_recorded = r.time_recorded;
              })
      ]

pub created_history-IsRecordOf :
    (new_id : ℕ) (db : Db) (d : Delivery) (input : ArchiveInput) (now : ℕ) (scope : DeliveryScope)
    → IsRecordOf d input now (created_history new_id db d input now scope)
unfolding created_history
created_history-IsRecordOf new_id db d input now scope = record {
  of_delivery = refl;
  status_recorded = refl;
  reason_recorded = refl;
  completion_recorded = refl;
  run_recorded = refl;
  time_recorded = refl;
}
