-- ===== src/CloseDay/Laws.antt =====
-- One turn of the daily close: a delivery that ends unfinished leaves its slot and becomes history.
use delivery_driver_manageme.Base.{
  ℕ, ◌+◌, ◌≤◌, ◌==◌, ◌≡◌, refl, sym, subst, ◌∙◌, ◌⊎◌, true, false, bit, none, some, inl, inr, arith,
  Bool-cases, Option-cases, count_by, Unique, or_else, ==_iff, update_row, update_row-Unique,
  key-find_row, find_row-update_row_self, find_row-update_row_ne, All-map, ok,
}
use delivery_driver_manageme.Schema.{status_eq, Delivery, DeliveryHistory}
use delivery_driver_manageme.Store.{Db, find_delivery, delivery_id, update_delivery}
use delivery_driver_manageme.SlotState.{is_active_at, occupancy}
use delivery_driver_manageme.Consistency.{
  IsConsistent, IsConsistentBut, IsWithin, weaken, same_occupancy-IsConsistent,
  one_occupancy-IsConsistentBut,
}
use delivery_driver_manageme.Lifecycle.Laws.{occupancy-update}
use delivery_driver_manageme.Lifecycle.Consistency.{inactive_elsewhere}
use delivery_driver_manageme.Archive.{
  original_id, find_history, status_differs, archive_delivery_in_transaction, archive_found,
  write_history,
}
use delivery_driver_manageme.Archive.Effects.{IsArchived, archive_found-IsArchived}
use delivery_driver_manageme.Archive.Yard.{named_slot, IsInactive, archive_deleted-IsConsistent}
use delivery_driver_manageme.CloseDay.{
  CloseArgs, CloseJob, is_unfinished, is_expired, closed_status, final_status_of, mark_closed,
  close_input, Turn, closed, skipped, close_found, close_candidate,
}

-- What the database keeps between transactions: a consistent yard, one history row per delivery.
pub record IsSound (db : Db) : Type 0 where
  pub consistent : IsConsistent db
  pub once : Unique original_id db.histories

-- A delivery that stops holding a place leaves at most its own slot's status off.
module _ (db : Db) (f : Delivery → Delivery) (d : Delivery)
    (keep : (x : Delivery) → (f x).id ≡ x.id) (quiet : IsInactive (f d)) (c : IsConsistent db)
    (h : find_delivery d.id db ≡ some d) where
  fewer :
      (j : ℕ)
      → count_by (is_active_at j) (update_row delivery_id d.id f db.deliveries)
          + bit (is_active_at j d)
        ≡ occupancy j db
  fewer j = omega (arith, occupancy-update db d.id j f d c.keyed h, quiet j)

  unique : Unique delivery_id (update_row delivery_id d.id f db.deliveries)
  unique = update_row-Unique delivery_id f keep d.id db.deliveries c.keyed.deliveries_unique

  leave_at : (i : ℕ) → d.assigned_slot_id ≡ some i → IsConsistentBut i (update_delivery d.id f db)
  leave_at i at =
      one_occupancy-IsConsistentBut db (update_row delivery_id d.id f db.deliveries)
        db.ticket_sequences db.events c unique i
        (λ j ne. omega (arith, fewer j, inactive_elsewhere j d (rw at (ground (arith, ne)))))
        (All-map (λ s. IsWithin s db) _ db.slots
          (λ s w here.
            let w' : occupancy i db ≤ s.max_capacity = rw here at w in omega (arith, fewer i))
          c.within)

  pub leave-IsConsistentBut : IsConsistentBut (named_slot d) (update_delivery d.id f db)
  leave-IsConsistentBut = elim (Option-cases d.assigned_slot_id) [
    | inl at ↦
        subst (λ z. IsConsistentBut (or_else z 0) (update_delivery d.id f db)) (sym at)
          (weaken _ 0 (
            same_occupancy-IsConsistent db (update_row delivery_id d.id f db.deliveries)
              db.ticket_sequences db.events c unique
              (λ j. omega (arith, fewer j, inactive_elsewhere j d (rw at)))))
    | inr (i, at) ↦
        subst (λ z. IsConsistentBut (or_else z 0) (update_delivery d.id f db)) (sym at)
          (leave_at i at)
  ]

mark_closed-IsInactive :
    (job : CloseJob) (now : ℕ) (d : Delivery) → IsInactive (mark_closed job now d)
unfolding mark_closed closed_status is_active_at
mark_closed-IsInactive job now d j = elim (Bool-cases (is_expired d)) [
  | inl e ↦ rw e (ground arith)
  | inr e ↦ rw e (ground arith)
]

as_expected :
    (job : CloseJob) (now : ℕ) (d : Delivery)
    → status_differs (some (closed_status (is_expired d))) (mark_closed job now d) ≡ false
unfolding mark_closed closed_status
as_expected job now d = elim (Bool-cases (is_expired d)) [ inl e ↦ rw e refl | inr e ↦ rw e refl ]

id-mark_closed : (job : CloseJob) (now : ℕ) (d : Delivery) → (mark_closed job now d).id ≡ d.id
unfolding mark_closed
id-mark_closed job now d = refl

module _ (args : CloseArgs) (job : CloseJob) (now new_id : ℕ) (db : Db) (d : Delivery)
    (sound : IsSound db) (h : find_delivery d.id db ≡ some d) where
  abbrev written : Db
  written = update_delivery d.id (mark_closed job now) db

  abbrev marked : Delivery
  marked = mark_closed job now d

  abbrev archived : Db
  archived = (archive_found new_id written marked (close_input job now d) now).0

  find_marked : find_delivery d.id written ≡ some marked
  find_marked =
      find_row-update_row_self delivery_id (mark_closed job now) (id-mark_closed job now) d.id
        db.deliveries d h

  find_marked' : find_delivery marked.id written ≡ some marked
  unfolding mark_closed
  find_marked' = find_marked

  deleted : (close_input job now d).delete_operational_row ≡ true
  unfolding close_input
  deleted = refl

  archive_closed :
      archive_delivery_in_transaction new_id now written (close_input job now d)
      ≡ ok (archive_found new_id written marked (close_input job now d) now)
  unfolding archive_delivery_in_transaction close_input
  archive_closed =
      rw (find_marked, archive_delivery_in_transaction) (rw (as_expected job now d) refl)

  close_found-closed :
      is_unfinished args job db d ≡ true → close_found args job now new_id db d ≡ (archived, closed)
  unfolding close_found close_input
  close_found-closed due =
      let done =
        (archive_found-IsArchived new_id written marked (close_input job now d) now sound.once).1 in
      rw (due, close_found) (rw archive_closed (rw done refl))

  archived-IsSound : IsSound archived
  unfolding mark_closed
  archived-IsSound = record {
    consistent =
        archive_deleted-IsConsistent new_id written marked (close_input job now d) now
          (mark_closed-IsInactive job now d) find_marked' deleted
          (leave-IsConsistentBut db (mark_closed job now) d (id-mark_closed job now)
            (mark_closed-IsInactive job now d) sound.consistent h);
    once =
        (archive_found-IsArchived new_id written marked (close_input job now d) now
          sound.once).0.once;
  }

  is_archived :
      IsArchived written marked
        (close_input job now d)
        now
        archived
        (write_history new_id written marked (close_input job now d) now).1
  is_archived =
      (archive_found-IsArchived new_id written marked (close_input job now d) now sound.once).0

  archived-history :
      (r : DeliveryHistory) × (find_history d.id archived ≡ some r)
      × (r.final_status ≡ final_status_of (is_expired d))
  unfolding mark_closed close_input
  archived-history = (
    (write_history new_id written marked (close_input job now d) now).1,
    is_archived.found,
    is_archived.recorded.status_recorded,
  )

  archived-gone : find_delivery d.id archived ≡ none
  unfolding mark_closed
  archived-gone = elim is_archived.row [ inl (_, gone) ↦ gone | inr (kept, _) ↦ cc (deleted, kept) ]

  archived-others : (j : ℕ) → (d.id ≡ j) ⊎ (find_delivery j archived ≡ find_delivery j db)
  unfolding mark_closed
  archived-others j = elim (is_archived.others j) [
    | inl here ↦ inl here
    | inr (_, same) ↦ elim (Bool-cases (d.id == j)) [
      | inl here ↦ inl ((==_iff _ _).0 here)
      | inr there ↦ inr (
          same
          ∙ find_row-update_row_ne delivery_id (mark_closed job now) (id-mark_closed job now) d.id j
              db.deliveries there)
    ]
  ]

-- The delivery is skipped, or it was unfinished and is history now.
abbrev pub IsTurn : CloseArgs → CloseJob → Db → ℕ → Db → Turn → Type 0
IsTurn args job db i db' turn =
    ((turn ≡ skipped)
      × (db' ≡ db)
      × ((find_delivery i db ≡ none)
          ⊎ ((d : Delivery) × (find_delivery i db ≡ some d)
              × (is_unfinished args job db d ≡ false))))
    ⊎ ((turn ≡ closed)
        × ((d : Delivery) × (r : DeliveryHistory) × (find_delivery i db ≡ some d)
            × (is_unfinished args job db d ≡ true)
            × (find_delivery i db' ≡ none)
            × (find_history i db' ≡ some r)
            × (r.final_status ≡ final_status_of (is_expired d)))
        × ((j : ℕ) → (i ≡ j) ⊎ (find_delivery j db' ≡ find_delivery j db)))

module _ (args : CloseArgs) (job : CloseJob) (now new_id : ℕ) (db : Db) (sound : IsSound db) where
  close_found_effect :
      (d : Delivery)
      → find_delivery d.id db ≡ some d
      → let (db', turn) = close_found args job now new_id db d in
        IsSound db' × IsTurn args job db d.id db' turn
  unfolding close_found
  close_found_effect d h = elim (Bool-cases (is_unfinished args job db d)) [
    | inl due ↦
        let (r, found, final) = archived-history args job now new_id db d sound h in
        subst (λ z. IsSound z.0 × IsTurn args job db d.id z.0 z.1)
          (sym (close_found-closed args job now new_id db d sound h due))
          (
            archived-IsSound args job now new_id db d sound h,
            inr (
              refl,
              (d, r, h, due, archived-gone args job now new_id db d sound h, found, final),
              archived-others args job now new_id db d sound h,
            ),
          )
    | inr other ↦ rw (other, close_found) (sound, inl (refl, refl, inr (d, h, other)))
  ]

  pub close_candidate_effect :
      (i : ℕ)
      → let (db', turn) = close_candidate args job now new_id db i in
        IsSound db' × IsTurn args job db i db' turn
  unfolding close_candidate
  close_candidate_effect i = elim (Option-cases (find_delivery i db)) [
    | inl gone ↦ rw (gone, close_candidate) (sound, inl (refl, refl, inl refl))
    | inr (d, found) ↦
        let e : d.id ≡ i = key-find_row delivery_id i db.deliveries d found in
        let same : close_candidate args job now new_id db i ≡ close_found args job now new_id db d =
          rw (found, close_candidate) refl in
        subst (λ z. IsSound z.0 × IsTurn args job db i z.0 z.1) (sym same)
          (subst
            (λ z.
              IsSound (close_found args job now new_id db d).0
              × IsTurn args job db z (close_found args job now new_id db d).0
                  (close_found args job now new_id db d).1)
            e (close_found_effect d (subst (λ z. find_delivery z db ≡ some d) (sym e) found)))
  ]
