-- ===== src/Reception/Completion.antt =====
-- Completing a delivery by hand records it in the history too.
use delivery_driver_manageme.Base.{
  ℕ, ◌≡◌, refl, ap, sym, subst, ◌∙◌, true, false, Option, some, List, inl, inr, Unique, find_row,
  find_row-update_row_self, includes, ok, ◌>>=◌,
}
use delivery_driver_manageme.Schema.{FinalStatus, Delivery, DeliveryHistory, Actor, status_eq}
use delivery_driver_manageme.Store.{Db, delivery_id, find_delivery}
use delivery_driver_manageme.Consistency.{IsConsistent}
use delivery_driver_manageme.Lifecycle.{
  completable_statuses, mark_completed, complete_found, release_slot_for_delivery,
}
use delivery_driver_manageme.Lifecycle.Laws.{
  complete_delivery_done, deliveries-complete_found, inactive-mark_completed,
}
use delivery_driver_manageme.Lifecycle.Consistency.{
  complete_delivery-IsConsistent, histories-reconcile_released,
}
use delivery_driver_manageme.Archive.{
  original_id, find_history, archive_found, write_history, archive_delivery_in_transaction,
}
use delivery_driver_manageme.Archive.Effects.{IsArchived, archive_found-IsArchived}
use delivery_driver_manageme.Archive.Yard.{archive_found-IsConsistent}
use delivery_driver_manageme.Permissions.{PermissionProfile}
use delivery_driver_manageme.Reception.{
  GrantedUnit, ensure_delivery_access, completed_input, archive_completed, complete,
  answer_archived,
}

module _ (db : Db) (d : Delivery) (actor : Actor) (now new_id closing : ℕ) (c : IsConsistent db)
    (u : Unique original_id db.histories) (h : find_delivery d.id db ≡ some d)
    (s : includes completable_statuses d.status ≡ true) where
  abbrev done : Db
  done = (complete_found db d actor now).0

  abbrev marked : Delivery
  marked = mark_completed now d

  histories-done : done.histories ≡ db.histories
  unfolding complete_found release_slot_for_delivery
  histories-done = histories-reconcile_released _ _

  found : find_delivery d.id done ≡ some marked
  found =
      ap (find_row delivery_id d.id) (deliveries-complete_found db d actor now)
      ∙ find_row-update_row_self delivery_id (mark_completed now) (λ x. refl) d.id db.deliveries d h

  done-IsConsistent : IsConsistent done
  done-IsConsistent =
      subst (λ z. IsConsistent z.0) (complete_delivery_done db d.id actor now d h s)
        (complete_delivery-IsConsistent db d.id actor now c)

  done-Unique : Unique original_id done.histories
  done-Unique = subst (Unique original_id) (sym histories-done) u

  abbrev last : Db
  last = (archive_found new_id done marked (completed_input closing actor marked) now).0

  is_archived :
      IsArchived done marked
        (completed_input closing actor marked)
        now
        last
        (write_history new_id done marked (completed_input closing actor marked) now).1
  is_archived =
      (archive_found-IsArchived new_id done marked (completed_input closing actor marked) now
        done-Unique).0

  last-IsConsistent : IsConsistent last
  last-IsConsistent =
      archive_found-IsConsistent new_id done marked (completed_input closing actor marked) now
        (λ j. inactive-mark_completed j now d) found done-IsConsistent

  stays : find_delivery d.id last ≡ some marked
  stays = elim is_archived.row [ inl (delete, _) ↦ cc delete | inr (_, same) ↦ same ∙ found ]

  archive_done :
      archive_delivery_in_transaction new_id now done (completed_input closing actor marked)
      ≡ ok (archive_found new_id done marked (completed_input closing actor marked) now)
  unfolding archive_delivery_in_transaction
  archive_done = rw (found, archive_delivery_in_transaction) refl

  answered :
      archive_completed new_id closing actor now (complete_found db d actor now)
      ≡ ok (last, marked, false)
  unfolding archive_completed complete_found
  answered = ap (λ r. r >>= answer_archived marked) archive_done

-- In a consistent yard with one history row per delivery, a user with access to a stored delivery that can
-- be completed gets the answer that it is completed now. It is stored as completed, and kept; its one
-- history row is final as completed, for the given reason; and the yard stays consistent.
pub complete_effect :
    (granted : List GrantedUnit) (db : Db) (user : Option PermissionProfile) (actor : Actor)
    (now new_id closing : ℕ) (d : Delivery)
    → IsConsistent db
    → Unique original_id db.histories
    → find_delivery d.id db ≡ some d
    → ensure_delivery_access granted user db d ≡ ok tt
    → includes completable_statuses d.status ≡ true
    → (db' : Db) × (r : DeliveryHistory) × (complete granted db d.id new_id closing user actor now
        ≡ ok (db', mark_completed now d, false))
      × (find_delivery d.id db' ≡ some (mark_completed now d))
      × (find_history d.id db' ≡ some r)
      × (r.final_status ≡ FinalStatus.completed)
      × (r.close_reason ≡ some closing)
      × Unique original_id db'.histories
      × IsConsistent db'
unfolding complete
complete_effect granted db user actor now new_id closing d c u h access s = (
  last db d actor now new_id closing c u h s,
  (write_history new_id (done db d actor now new_id closing c u h s) (mark_completed now d)
      (completed_input closing actor (mark_completed now d)) now).1,
  rw (h, complete)
      (rw access (
        rw (complete_delivery_done db d.id actor now d h s)
          (answered db d actor now new_id closing c u h s))),
  stays db d actor now new_id closing c u h s,
  (is_archived db d actor now new_id closing c u h s).found,
  (is_archived db d actor now new_id closing c u h s).recorded.status_recorded,
  (is_archived db d actor now new_id closing c u h s).recorded.reason_recorded,
  (is_archived db d actor now new_id closing c u h s).once,
  last-IsConsistent db d actor now new_id closing c u h s,
)
