-- ===== src/Archive/Effects.antt =====
-- The verdicts of the archive of backend/src/modules/history/archiveService.ts.
use delivery_driver_manageme.Base.{
  ℕ, ◌==◌, ◌≡◌, refl, ap, sym, ◌∙◌, Bool, true, false, if◌then◌else◌, none, some, inl, inr, ◌⊎◌,
  Bool-cases, Unique, or_else, subst, find_row, ==_iff, ok, failed,
}
use delivery_driver_manageme.Schema.{Delivery, DeliveryHistory}
use delivery_driver_manageme.Store.{Db, delivery_id, find_delivery}
use delivery_driver_manageme.History.{DeliveryScope, resolve_delivery_scope}
use delivery_driver_manageme.Archive.{
  ArchiveInput, ArchiveResult, original_id, find_history, write_history, archive_found,
  remove_operational_row, status_differs, updated_after, archive_delivery_in_transaction,
}
use delivery_driver_manageme.Archive.Rows.{IsRecordOf}
use delivery_driver_manageme.Archive.Recording.{
  write_history-yard, write_history-row, write_history-others, write_history-Unique,
  remove_operational_row-rows, remove_operational_row-gone, remove_operational_row-others,
}

-- What the archive of a stored delivery leaves behind.
pub record IsArchived (db : Db) (d : Delivery) (input : ArchiveInput) (now : ℕ) (db' : Db)
    (h : DeliveryHistory) : Type 0 where
  pub recorded : IsRecordOf d input now h
  pub found : find_history d.id db' ≡ some h
  pub once : Unique original_id db'.histories
  pub others :
      (j : ℕ)
      → (d.id ≡ j)
        ⊎ ((find_history j db' ≡ find_history j db) × (find_delivery j db' ≡ find_delivery j db))
  pub row :
      ((input.delete_operational_row ≡ true) × (find_delivery d.id db' ≡ none))
      ⊎ ((input.delete_operational_row ≡ false) × (find_delivery d.id db' ≡ find_delivery d.id db))

module _ (new_id : ℕ) (db : Db) (d : Delivery) (input : ArchiveInput) (now : ℕ) where
  abbrev linked : Db
  linked = (write_history new_id db d input now).0

  abbrev history : DeliveryHistory
  history = (write_history new_id db d input now).1

  yard : (linked.deliveries ≡ db.deliveries) × (linked.slots ≡ db.slots)
  yard = write_history-yard new_id db d input now

  kept-IsArchived :
      Unique original_id db.histories
      → input.delete_operational_row ≡ false
      → IsArchived db d input now linked history
  kept-IsArchived u keep = record {
    recorded = (write_history-row new_id db d input now).1;
    found = (write_history-row new_id db d input now).0;
    once = write_history-Unique new_id db d input now u;
    others = λ j. elim (Bool-cases (d.id == j)) [
      | inl here ↦ inl ((==_iff _ _).0 here)
      | inr there ↦
          inr
            (write_history-others new_id db d input now j there, ap (find_row delivery_id j) yard.0)
    ];
    row = inr (keep, ap (find_row delivery_id d.id) yard.0);
  }

  removed-IsArchived :
      Unique original_id db.histories
      → (scope : DeliveryScope) → input.delete_operational_row ≡ true
      → IsArchived db d input now
          (remove_operational_row d input now scope history.id linked)
          history
  removed-IsArchived u scope delete =
      let rows = remove_operational_row-rows d input now scope history.id linked in
      record {
        recorded = (write_history-row new_id db d input now).1;
        found = ap (find_row original_id d.id) rows.1 ∙ (write_history-row new_id db d input now).0;
        once =
            subst (Unique original_id) (sym rows.1) (write_history-Unique new_id db d input now u);
        others = λ j. elim (Bool-cases (d.id == j)) [
          | inl here ↦ inl ((==_iff _ _).0 here)
          | inr there ↦ inr (
            ap (find_row original_id j) rows.1 ∙ write_history-others new_id db d input now j there,
            remove_operational_row-others d input now scope history.id linked j there
                ∙ ap (find_row delivery_id j) yard.0,
          )
        ];
        row = inl (delete, remove_operational_row-gone d input now scope history.id linked);
      }

  abbrev pub scope_of : DeliveryScope
  scope_of = resolve_delivery_scope db d.unit_config_id d.assigned_slot_id

  abbrev pub outcome : Bool → Db × ArchiveResult
  outcome delete =
      if delete
      then (
        remove_operational_row d input now scope_of history.id linked,
        record { history = some history; archived = true; deleted = true },
      )
      else (linked, record { history = some history; archived = true; deleted = false })

  pub archive_found-outcome :
      (delete : Bool)
      → input.delete_operational_row ≡ delete
      → archive_found new_id db d input now ≡ outcome delete
  unfolding archive_found
  archive_found-outcome delete e = ap outcome e

  outcome-IsArchived :
      Unique original_id db.histories
      → (delete : Bool) → input.delete_operational_row ≡ delete
      → IsArchived db d input now (outcome delete).0 history
        × ((outcome delete).1
            ≡ record { history = some history; archived = true; deleted = delete })
  outcome-IsArchived u true e = (removed-IsArchived u scope_of e, refl)
  outcome-IsArchived u false e = (kept-IsArchived u e, refl)

  pub archive_found-IsArchived :
      Unique original_id db.histories
      → IsArchived db d input now (archive_found new_id db d input now).0 history
        × ((archive_found new_id db d input now).1 ≡ record {
          history = some history;
          archived = true;
          deleted = input.delete_operational_row;
        })
  archive_found-IsArchived u =
      subst
        (λ z.
          IsArchived db d input now z.0 history
          × (z.1 ≡ record {
            history = some history;
            archived = true;
            deleted = input.delete_operational_row;
          }))
        (sym (archive_found-outcome input.delete_operational_row refl))
        (outcome-IsArchived u input.delete_operational_row refl)

-- Archiving a stored delivery fails if its status is not the expected one or it was written after the
-- limit. Otherwise it answers the one history row of the delivery, which has the final status, the reason
-- and the time of the archive; the delivery is deleted exactly when asked, and the rows of every other
-- delivery stay.
pub archive_delivery_in_transaction_effect :
    (new_id clock : ℕ) (db : Db) (input : ArchiveInput) (d : Delivery)
    → Unique original_id db.histories
    → find_delivery input.delivery_id db ≡ some d
    → ((archive_delivery_in_transaction new_id clock db input ≡ failed)
        × ((status_differs input.expected_status d ≡ true)
            ⊎ (updated_after input.updated_before d ≡ true)))
      ⊎ ((status_differs input.expected_status d ≡ false)
          × (updated_after input.updated_before d ≡ false)
          × ((db' : Db) × (h : DeliveryHistory) × (archive_delivery_in_transaction new_id clock db
                  input
                ≡ ok (
                  db',
                  record {
                    history = some h;
                    archived = true;
                    deleted = input.delete_operational_row;
                  },
                ))
              × IsArchived db d input (or_else input.occurred_at clock) db' h))
unfolding archive_delivery_in_transaction
archive_delivery_in_transaction_effect new_id clock db input d u found =
    let now = or_else input.occurred_at clock in
    let done = archive_found-IsArchived new_id db d input now u in
    elim (Bool-cases (status_differs input.expected_status d)) [
      | inl differs ↦
          inl (rw (found, archive_delivery_in_transaction) (rw differs refl), inl differs)
      | inr same ↦ elim (Bool-cases (updated_after input.updated_before d)) [
        | inl late ↦
            inl (rw (found, archive_delivery_in_transaction) (rw (same, late) refl), inr late)
        | inr early ↦ inr (
          same,
          early,
          (
            (archive_found new_id db d input now).0,
            (write_history new_id db d input now).1,
            rw (found, archive_delivery_in_transaction)
                (rw (same, early)
                  (ap (λ r. ok ((archive_found new_id db d input now).0, r)) done.1)),
            done.0,
          ),
        )
      ]
    ]

-- Once a delivery is archived and deleted, archiving it again answers the same row and changes nothing.
pub archive_delivery_in_transaction_again :
    (new_id now : ℕ) (db : Db) (input : ArchiveInput) (d : Delivery)
    → Unique original_id db.histories
    → find_delivery input.delivery_id db ≡ some d
    → input.delete_operational_row ≡ true
    → (other_id clock : ℕ) (again : ArchiveInput) → again.delivery_id ≡ d.id
    → let db' = (archive_found new_id db d input now).0 in
      archive_delivery_in_transaction other_id clock db' again
      ≡ ok (
        db',
        record {
          history = some (write_history new_id db d input now).1;
          archived = false;
          deleted = false;
        },
      )
unfolding archive_delivery_in_transaction
archive_delivery_in_transaction_again new_id now db input d u found delete other_id clock again
      same =
    let db' = (archive_found new_id db d input now).0 in
    let done = (archive_found-IsArchived new_id db d input now u).0 in
    elim done.row [
      | inl (_, gone) ↦
          let gone' : find_delivery again.delivery_id db' ≡ none =
            subst (λ z. find_delivery z db' ≡ none) (sym same) gone in
          rw (gone', archive_delivery_in_transaction)
            (ap (λ h. ok (db', record { history = h; archived = false; deleted = false }))
              (subst (λ z. find_history z db' ≡ some (write_history new_id db d input now).1)
                (sym same) done.found))
      | inr (keep, _) ↦ cc (delete, keep)
    ]
