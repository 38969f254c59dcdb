-- ===== src/Workflow/Moves/Removals.antt =====
-- What the archive job, a call by hand and a change of a slot's status do to the status of every delivery.
use delivery_driver_manageme.Base.{
  ℕ, ◌≡◌, ◌⊎◌, inl, inr, refl, ap, sym, subst, ◌∙◌, some, Bool-cases, includes, true, false, Unique,
  find_row, ◌===◌,
}
use delivery_driver_manageme.Schema.{
  waiting, called, status_eq, FinalStatus, SlotStatus, Slot, Delivery, Actor,
}
use delivery_driver_manageme.Store.{Db, delivery_id, find_delivery}
use delivery_driver_manageme.Consistency.{IsConsistent}
use delivery_driver_manageme.SlotState.{is_manual_slot_status}
use delivery_driver_manageme.SlotState.Laws.{reconcile_slot_state-update}
use delivery_driver_manageme.Archive.{original_id}
use delivery_driver_manageme.AutoAssign.{mark_called}
use delivery_driver_manageme.ManualCall.{
  callable_statuses, recall_delivery, call_into_slot, manual_call_delivery,
}
use delivery_driver_manageme.ManualCall.Laws.{
  waiting_of_callable, call_with_slot-cases, deliveries-call_into_slot,
}
use delivery_driver_manageme.ManualCall.Effects.{
  manual_call_delivery-cases, manual_call_delivery-IsConsistent,
}
use delivery_driver_manageme.ArchiveJob.Turns.{Fate, IsSafe, IsArchivable}
use delivery_driver_manageme.CloseDay.Laws.{IsSound}
use delivery_driver_manageme.Slots.{write_status}
use delivery_driver_manageme.Slots.Laws.{write_status-IsConsistent}
use delivery_driver_manageme.Workflow.{status_of, status_of_row, IsEnding, CanMove}
use delivery_driver_manageme.Workflow.Moves.{IsMove, nothing-IsMove, row-IsMove, own_row}
use delivery_driver_manageme.Workflow.Moves.Calls.{histories-reconcile_previous}

IsArchivable-IsEnding :
    (cutoff : ℕ) (d : Delivery) (s : FinalStatus) → IsArchivable cutoff d s → IsEnding d.status
IsArchivable-IsEnding cutoff d _ (IsArchivable.was_completed e) =
    subst IsEnding (sym e) IsEnding.after_completion
IsArchivable-IsEnding cutoff d _ (IsArchivable.was_cancelled e _) =
    subst IsEnding (sym e) IsEnding.after_cancellation

Fate-CanMove :
    (cutoff : ℕ) (db db' : Db) (j : ℕ)
    → Fate cutoff db db' j
    → CanMove (status_of j db) (status_of j db')
Fate-CanMove cutoff db db' j (inl (same, _)) =
    subst (λ z. CanMove (status_of j db) (status_of_row z)) (sym same)
      (CanMove.stays (status_of j db))
Fate-CanMove cutoff db db' j (inr (d, h, found, due, gone, _)) =
    subst (λ z. CanMove (status_of_row z) (status_of j db')) (sym found)
      (subst (λ z. CanMove (some d.status) (status_of_row z)) (sym gone)
        (CanMove.ends d.status (IsArchivable-IsEnding cutoff d h.final_status due)))

-- Whatever the archive job may do is a move.
pub IsSafe-IsMove : (cutoff : ℕ) (db db' : Db) → IsSafe cutoff db db' → IsMove db db'
IsSafe-IsMove cutoff db db' safe = record {
  sound = safe.sound;
  moves = λ j. Fate-CanMove cutoff db db' j (safe.fates j);
}

-- A step that leaves the deliveries and the history rows.
same_rows-IsMove :
    (db db' : Db)
    → IsSound db
    → db'.deliveries ≡ db.deliveries
    → db'.histories ≡ db.histories
    → IsConsistent db'
    → IsMove db db'
same_rows-IsMove db db' sound rows hs c = record {
  sound = record { consistent = c; once = subst (Unique original_id) (sym hs) sound.once };
  moves = λ j.
      subst (λ z. CanMove (status_of j db) (status_of_row z))
        (sym (ap (find_row delivery_id j) rows)) (CanMove.stays (status_of j db));
}

write_status-rows :
    (db : Db) (i : ℕ) (status : SlotStatus)
    → ((write_status db i status).0.deliveries ≡ db.deliveries)
      × ((write_status db i status).0.histories ≡ db.histories)
unfolding write_status
write_status-rows db i status = elim (Bool-cases (is_manual_slot_status status)) [
  | inl m ↦ rw (m, write_status) (rw (reconcile_slot_state-update _ i true) (refl, refl))
  | inr m ↦ rw (m, write_status) (rw (reconcile_slot_state-update db i false) (refl, refl))
]

pub write_status-IsMove :
    (db : Db) (i : ℕ) (status : SlotStatus) → IsSound db → IsMove db (write_status db i status).0
write_status-IsMove db i status sound =
    let rows = write_status-rows db i status in
    same_rows-IsMove db _ sound rows.0 rows.1
      (write_status-IsConsistent db i status sound.consistent)

callable-CanMove :
    (d : Delivery)
    → includes callable_statuses d.status ≡ true
    → CanMove (some d.status) (some called)
callable-CanMove d callable = elim (Bool-cases (d.status === called)) [
  | inl again ↦
      subst (λ s. CanMove (some s) (some called)) (sym ((status_eq.eq_iff d.status called).0 again))
        (CanMove.stays (some called))
  | inr fresh ↦
      subst (λ s. CanMove (some s) (some called)) (sym (waiting_of_callable d callable fresh))
        CanMove.is_called
]

histories-call_into_slot :
    (db : Db) (d : Delivery) (slot : Slot) (actor : Actor) (now : ℕ)
    → (call_into_slot db d slot actor now).0.histories ≡ db.histories
unfolding call_into_slot
histories-call_into_slot db d slot actor now =
    rw (reconcile_slot_state-update _ slot.id true)
      (histories-reconcile_previous d.assigned_slot_id slot.id db)

pub manual_call_delivery-IsMove :
    (db : Db) (i j : ℕ) (actor : Actor) (now : ℕ) (d : Delivery)
    → IsSound db
    → find_delivery i db ≡ some d
    → (d.status ≡ waiting) ⊎ (d.assigned_slot_id ≡ some j)
    → IsMove db (manual_call_delivery db i j actor now).0
unfolding recall_delivery
manual_call_delivery-IsMove db i j actor now d sound found may =
    let c = manual_call_delivery-IsConsistent db i j actor now d sound.consistent found may in
    elim (manual_call_delivery-cases db i j actor now d found) [
      | inl (e, _) ↦ nothing-IsMove db _ sound e
      | inr (slot, at, own, callable, e) ↦ elim (call_with_slot-cases db d slot actor now) [
        | inl (e', _) ↦ nothing-IsMove db _ sound (ap (λ z. z.0) e ∙ e')
        | inr (inl (_, _, _, e')) ↦
            let done = ap (λ z. z.0) (e ∙ e') in
            same_rows-IsMove db _ sound (ap (λ z. z.deliveries) done) (ap (λ z. z.histories) done) c
        | inr (inr (_, _, _, e')) ↦
            let done = ap (λ z. z.0) (e ∙ e') in
            row-IsMove db _ (mark_called slot.id now) d sound c
              (ap (λ z. z.histories) done ∙ histories-call_into_slot db d slot actor now)
              (λ x. refl)
              (ap (λ z. z.deliveries) done ∙ deliveries-call_into_slot db d slot actor now)
              (own_row db i d found) (callable-CanMove d callable)
      ]
    ]
