-- ===== src/Workflow/Moves.antt =====
-- What completion and cancellation do to the status of every delivery.
pub mod Calls
pub mod Removals
use delivery_driver_manageme.Base.{
  ℕ, ◌==◌, ◌≡◌, refl, ap, sym, subst, ◌∙◌, Option, none, some, inl, inr, Bool-cases, Option-cases,
  ==_iff, find_row, update_row, find_row-update_row_self, find_row-update_row_ne, key-find_row,
  includes, Unique,
}
use delivery_driver_manageme.Schema.{status_eq, Delivery, Actor, Message}
use delivery_driver_manageme.Store.{Db, delivery_id, find_delivery}
use delivery_driver_manageme.Archive.{original_id}
use delivery_driver_manageme.Consistency.{IsConsistent}
use delivery_driver_manageme.CloseDay.Laws.{IsSound}
use delivery_driver_manageme.SlotState.Laws.{reconcile_slot_state-update}
use delivery_driver_manageme.Lifecycle.{
  completable_statuses, mark_completed, mark_cancelled, complete_found, cancel_found,
  complete_delivery, cancel_delivery, reconcile_released, release_slot_for_delivery,
}
use delivery_driver_manageme.Lifecycle.Laws.{
  is_cancellable, complete_delivery_done, complete_delivery_refused, cancel_delivery_done,
  cancel_delivery_refused, deliveries-complete_found, deliveries-cancel_found,
}
use delivery_driver_manageme.Lifecycle.Consistency.{
  complete_delivery-IsConsistent, cancel_delivery-IsConsistent, histories-reconcile_released,
}
use delivery_driver_manageme.Workflow.{status_of, status_of_row, CanMove}

-- One row is rewritten.
pub CanMove-update_row :
    (db db' : Db) (f : Delivery → Delivery) (d : Delivery)
    → ((x : Delivery) → (f x).id ≡ x.id)
    → db'.deliveries ≡ update_row delivery_id d.id f db.deliveries
    → find_delivery d.id db ≡ some d
    → CanMove (some d.status) (some (f d).status)
    → (j : ℕ) → CanMove (status_of j db) (status_of j db')
CanMove-update_row db db' f d keep rows found move j = elim (Bool-cases (d.id == j)) [
  | inl own ↦
      let e = (==_iff d.id j).0 own in
      let after : find_delivery d.id db' ≡ some (f d) =
        ap (find_row delivery_id d.id) rows
        ∙ find_row-update_row_self delivery_id f keep d.id db.deliveries d found in
      subst (λ k. CanMove (status_of k db) (status_of k db')) e
        (subst (λ z. CanMove (status_of_row z) (status_of d.id db')) (sym found)
          (subst (λ z. CanMove (some d.status) (status_of_row z)) (sym after) move))
  | inr other ↦
      let same : find_delivery j db' ≡ find_delivery j db =
        ap (find_row delivery_id j) rows
        ∙ find_row-update_row_ne delivery_id f keep d.id j db.deliveries other in
      subst (λ z. CanMove (status_of j db) (status_of_row z)) (sym same)
        (CanMove.stays (status_of j db))
]

histories-complete_found :
    (db : Db) (d : Delivery) (actor : Actor) (now : ℕ)
    → (complete_found db d actor now).0.histories ≡ db.histories
unfolding complete_found release_slot_for_delivery
histories-complete_found db d actor now = histories-reconcile_released _ _

histories-cancel_found :
    (db : Db) (d : Delivery) (reason : ℕ) (actor : Actor) (m : Message) (now : ℕ)
    → (cancel_found db d reason actor m now).0.histories ≡ db.histories
unfolding cancel_found release_slot_for_delivery
histories-cancel_found db d reason actor m now = histories-reconcile_released _ _

-- The database stays sound, and every delivery moves as it may.
pub record IsMove (db db' : Db) : Type 0 where
  pub sound : IsSound db'
  pub moves : (j : ℕ) → CanMove (status_of j db) (status_of j db')

pub nothing-IsMove : (db db' : Db) → IsSound db → db' ≡ db → IsMove db db'
nothing-IsMove db db' sound e = record {
  sound = subst IsSound (sym e) sound;
  moves = λ j.
      subst (λ z. CanMove (status_of j db) (status_of j z)) (sym e)
        (CanMove.stays (status_of j db));
}

-- A step that rewrites one row and keeps the history rows.
pub row-IsMove :
    (db db' : Db) (f : Delivery → Delivery) (d : Delivery)
    → IsSound db
    → IsConsistent db'
    → db'.histories ≡ db.histories
    → ((x : Delivery) → (f x).id ≡ x.id)
    → db'.deliveries ≡ update_row delivery_id d.id f db.deliveries
    → find_delivery d.id db ≡ some d
    → CanMove (some d.status) (some (f d).status)
    → IsMove db db'
row-IsMove db db' f d sound c hs keep rows found move = record {
  sound = record { consistent = c; once = subst (Unique original_id) (sym hs) sound.once };
  moves = CanMove-update_row db db' f d keep rows found move;
}

pub own_row :
    (db : Db) (i : ℕ) (d : Delivery) → find_delivery i db ≡ some d → find_delivery d.id db ≡ some d
own_row db i d found =
    subst (λ k. find_delivery k db ≡ some d)
      (sym (key-find_row delivery_id i db.deliveries d found)) found

pub complete_delivery-IsMove :
    (db : Db) (i : ℕ) (actor : Actor) (now : ℕ)
    → IsSound db
    → IsMove db (complete_delivery db i actor now).0
unfolding complete_delivery
complete_delivery-IsMove db i actor now sound = elim (Option-cases (find_delivery i db)) [
  | inl gone ↦ nothing-IsMove db _ sound (rw (gone, complete_delivery) refl)
  | inr (d, found) ↦ elim (Bool-cases (includes completable_statuses d.status)) [
    | inr other ↦ nothing-IsMove db _ sound (complete_delivery_refused db i actor now d found other)
    | inl may ↦
        let done = ap (λ z. z.0) (complete_delivery_done db i actor now d found may) in
        row-IsMove db _ (mark_completed now) d sound
          (complete_delivery-IsConsistent db i actor now sound.consistent)
          (ap (λ z. z.histories) done ∙ histories-complete_found db d actor now) (λ x. refl)
          (ap (λ z. z.deliveries) done ∙ deliveries-complete_found db d actor now)
          (own_row db i d found) (CanMove.is_completed d.status may)
  ]
]

pub cancel_delivery-IsMove :
    (db : Db) (i reason : ℕ) (actor : Actor) (m : Message) (now : ℕ)
    → IsSound db
    → IsMove db (cancel_delivery db i reason actor m now).0
unfolding cancel_delivery
cancel_delivery-IsMove db i reason actor m now sound = elim (Option-cases (find_delivery i db)) [
  | inl gone ↦ nothing-IsMove db _ sound (rw (gone, cancel_delivery) refl)
  | inr (d, found) ↦ elim (Bool-cases (is_cancellable d.status)) [
    | inr other ↦
        nothing-IsMove db _ sound (cancel_delivery_refused db i reason actor m now d found other)
    | inl may ↦
        let done = ap (λ z. z.0) (cancel_delivery_done db i reason actor m now d found may) in
        row-IsMove db _ (mark_cancelled reason now) d sound
          (cancel_delivery-IsConsistent db i reason actor m now sound.consistent)
          (ap (λ z. z.histories) done ∙ histories-cancel_found db d reason actor m now) (λ x. refl)
          (ap (λ z. z.deliveries) done ∙ deliveries-cancel_found db d reason actor m now)
          (own_row db i d found) (CanMove.is_cancelled d.status may)
  ]
]
