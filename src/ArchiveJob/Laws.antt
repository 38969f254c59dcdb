-- ===== src/ArchiveJob/Laws.antt =====
-- The job that archives loses no delivery.
use delivery_driver_manageme.Base.{
  ℕ, ◌≡◌, refl, ap, sym, subst, ◌∙◌, true, false, none, some, List, [], ◌∷◌, inl, inr, Bool-cases,
  Option-cases, key-find_row, or_else, ok, Result, length,
}
use delivery_driver_manageme.Schema.{status_eq, Delivery, DeliveryHistory}
use delivery_driver_manageme.Store.{Db, delivery_id, find_delivery}
use delivery_driver_manageme.Archive.{
  ArchiveInput, ArchiveResult, status_differs, updated_after, archive_found, write_history,
  archive_delivery_in_transaction,
}
use delivery_driver_manageme.Archive.Effects.{IsArchived, archive_found-IsArchived}
use delivery_driver_manageme.Archive.Yard.{archive_found-IsConsistent}
use delivery_driver_manageme.CloseDay.Laws.{IsSound}
use delivery_driver_manageme.NoShow.{JobResult}
use delivery_driver_manageme.ArchiveJob.{count_archived, archive_each}
use delivery_driver_manageme.ArchiveJob.Turns.{
  IsArchivable, Fate, IsSafe, nothing-IsSafe, then-IsSafe, IsArchivable-IsInactive,
}

count_archived-ok :
    (db : Db) (r : JobResult) (x : Db × ArchiveResult) → (count_archived db r (ok x)).0 ≡ x.0
unfolding count_archived
count_archived-ok db r x = elim (Bool-cases x.1.deleted) [
  | inl gone ↦ rw gone refl
  | inr kept ↦ rw kept refl
]

-- An input of the job: it deletes, and its guards only let pass what the job may delete.
pub record IsJobInput (cutoff : ℕ) (input : ArchiveInput) : Type 0 where
  pub deletes : input.delete_operational_row ≡ true
  pub guarded :
      (d : Delivery)
      → status_differs input.expected_status d ≡ false
      → updated_after input.updated_before d ≡ false
      → IsArchivable cutoff d input.final_status

module _ (cutoff new_id clock : ℕ) (db : Db) (input : ArchiveInput) (sound : IsSound db)
    (proper : IsJobInput cutoff input) where
  module _ (d : Delivery) (found : find_delivery d.id db ≡ some d)
      (due : IsArchivable cutoff d input.final_status) where
    abbrev now : ℕ
    now = or_else input.occurred_at clock

    abbrev archived : Db
    archived = (archive_found new_id db d input now).0

    abbrev history : DeliveryHistory
    history = (write_history new_id db d input now).1

    is_archived : IsArchived db d input now archived history
    is_archived = (archive_found-IsArchived new_id db d input now sound.once).0

    gone : find_delivery d.id archived ≡ none
    gone = elim is_archived.row [ inl (_, e) ↦ e | inr (kept, _) ↦ cc (kept, proper.deletes) ]

    archived-Fate : (j : ℕ) → Fate cutoff db archived j
    archived-Fate j = elim (is_archived.others j) [
      | inr (rows, same) ↦ inl (same, rows)
      | inl own ↦ subst (Fate cutoff db archived) own (
          inr (
            d,
            history,
            found,
            subst (IsArchivable cutoff d) (sym is_archived.recorded.status_recorded) due,
            gone,
            is_archived.found,
          ))
    ]

    archived-IsSafe : IsSafe cutoff db archived
    archived-IsSafe = record {
      sound = record {
        consistent =
            archive_found-IsConsistent new_id db d input now
              (IsArchivable-IsInactive cutoff d input.final_status due) found sound.consistent;
        once = is_archived.once;
      };
      fates = archived-Fate;
    }

  abbrev outcome : Result (Db × ArchiveResult)
  outcome = archive_delivery_in_transaction new_id clock db input

  unwritten : (r : JobResult) (z : Db) → z ≡ db → IsSafe cutoff db z
  unwritten r z e = subst (IsSafe cutoff db) (sym e) (nothing-IsSafe cutoff db sound)

  pub count_archived-IsSafe : (r : JobResult) → IsSafe cutoff db (count_archived db r outcome).0
  unfolding archive_delivery_in_transaction count_archived
  count_archived-IsSafe r = elim (Option-cases (find_delivery input.delivery_id db)) [
    | inl none_there ↦ unwritten r _ (rw (none_there, archive_delivery_in_transaction) refl)
    | inr (d, found) ↦ elim (Bool-cases (status_differs input.expected_status d)) [
      | inl differs ↦ unwritten r _ (rw (found, archive_delivery_in_transaction) (rw differs refl))
      | inr same ↦ elim (Bool-cases (updated_after input.updated_before d)) [
        | inl late ↦
            unwritten r _ (rw (found, archive_delivery_in_transaction) (rw (same, late) refl))
        | inr early ↦
            let own : find_delivery d.id db ≡ some d =
              subst (λ k. find_delivery k db ≡ some d)
                (sym (key-find_row delivery_id input.delivery_id db.deliveries d found)) found in
            let done : outcome
                ≡ ok (archive_found new_id db d input (or_else input.occurred_at clock)) =
              rw (found, archive_delivery_in_transaction) (rw (same, early) refl) in
            subst (IsSafe cutoff db)
              (sym (
                ap (λ o. (count_archived db r o).0) done
                ∙ count_archived-ok db r
                    (archive_found new_id db d input (or_else input.occurred_at clock))))
              (archived-IsSafe d own (proper.guarded d same early))
      ]
    ]
  ]

module _ (cutoff : ℕ) (input : ℕ → Delivery → ArchiveInput)
    (proper : (now : ℕ) (d : Delivery) → IsJobInput cutoff (input now d))
    (new_id clock : ℕ → ℕ) where
  pub archive_each-IsSafe :
      (db : Db) (ds : List Delivery) (r : JobResult)
      → IsSound db
      → IsSafe cutoff db (archive_each input new_id clock ds (db, r)).0
  unfolding archive_each
  archive_each-IsSafe db [] r sound = nothing-IsSafe cutoff db sound
  archive_each-IsSafe db (d ∷ ds) r sound =
      let k = length ds in
      let now = clock k in
      let turn =
        count_archived db r (archive_delivery_in_transaction (new_id k) now db (input now d)) in
      let safe =
        count_archived-IsSafe cutoff (new_id k) now db (input now d) sound (proper now d) r in
      then-IsSafe cutoff db turn.0 (archive_each input new_id clock ds turn).0 safe
        (archive_each-IsSafe turn.0 ds turn.1 safe.sound)
