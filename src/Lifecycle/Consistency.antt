-- ===== src/Lifecycle/Consistency.antt =====
-- A delivery that leaves its slot, completed or cancelled, keeps the yard consistent.
use delivery_driver_manageme.Base.{
  ◌∷◌, ==_iff, Option, ℕ, ◌+◌, ◌≤◌, ◌==◌, ◌≡◌, refl, sym, ap, true, false, bit, none, some, arith,
  Option-cases, Bool-cases, inl, inr, includes, count_by, All-map, update_row-Unique, key-find_row,
  same, update_row, Unique,
}
use delivery_driver_manageme.Schema.{Delivery, Actor, Message, HistoryEvent, status_eq}
use delivery_driver_manageme.Store.{Db, find_delivery, delivery_id, update_delivery, add_event}
use delivery_driver_manageme.SlotState.{is_active_at, occupancy}
use delivery_driver_manageme.SlotState.Laws.{reconcile_slot_state-update}
use delivery_driver_manageme.Consistency.{
  IsConsistent, IsWithin, IsConsistentBut, reconcile-IsConsistent, same_occupancy-IsConsistent,
  one_occupancy-IsConsistentBut, nowhere-IsConsistent,
}
use delivery_driver_manageme.Lifecycle.{
  completable_statuses, mark_completed, mark_cancelled, complete_found, cancel_found,
  complete_delivery, cancel_delivery, reconcile_released, release_slot_for_delivery,
  slot_to_release,
}
use delivery_driver_manageme.Lifecycle.Laws.{
  is_cancellable, complete_delivery_done, complete_delivery_refused, cancel_delivery_done,
  cancel_delivery_refused, inactive-mark_completed, inactive-mark_cancelled, occupancy-update,
}

-- A delivery is active at its own slot only.
pub inactive_elsewhere :
    (j : ℕ) (d : Delivery) → same d.assigned_slot_id (some j) ≡ false → bit (is_active_at j d) ≡ 0
unfolding is_active_at
inactive_elsewhere j d h = rw h

module _ (db : Db) (f : Delivery → Delivery) (e : HistoryEvent) (d : Delivery)
    (keep : (x : Delivery) → (f x).id ≡ x.id) (inactive : (j : ℕ) → bit (is_active_at j (f d)) ≡ 0)
    (c : IsConsistent db) (h : find_delivery d.id db ≡ some d) where
  left : Db
  left = add_event e (update_delivery d.id f db)

  unique : Unique delivery_id (update_row delivery_id d.id f db.deliveries)
  unique = update_row-Unique delivery_id f keep d.id db.deliveries c.keyed.deliveries_unique

  fewer :
      (j : ℕ)
      → count_by (is_active_at j) (update_row delivery_id d.id f db.deliveries)
          + bit (is_active_at j d)
        ≡ occupancy j db
  fewer j = omega (arith, occupancy-update db d.id j f d c.keyed h, inactive j)

  leave_at : (i : ℕ) → d.assigned_slot_id ≡ some i → IsConsistentBut i left
  unfolding left
  leave_at i at =
      one_occupancy-IsConsistentBut db (update_row delivery_id d.id f db.deliveries)
        db.ticket_sequences (e ∷ db.events) c unique i
        (λ j ne. omega (arith, fewer j, inactive_elsewhere j d (rw at (ground (arith, ne)))))
        (All-map (λ s. IsWithin s db) _ db.slots
          (λ s w here.
            let w' : occupancy i db ≤ s.max_capacity = rw here at w in omega (arith, fewer i))
          c.within)

  leave_nowhere :
      slot_to_release d ≡ none
      → IsConsistent left
      → IsConsistent (reconcile_released (slot_to_release d) left)
  unfolding reconcile_released
  leave_nowhere e l = rw (e, reconcile_released) l

  pub leave-IsConsistent :
      IsConsistent
        (reconcile_released (slot_to_release d) (add_event e (update_delivery d.id f db)))
  unfolding reconcile_released left
  leave-IsConsistent = elim (Option-cases d.assigned_slot_id) [
    | inl at ↦ leave_nowhere (rw at) (
        same_occupancy-IsConsistent db (update_row delivery_id d.id f db.deliveries)
          db.ticket_sequences (e ∷ db.events) c unique
          (λ j. omega (arith, fewer j, inactive_elsewhere j d (rw at))))
    | inr (i, at) ↦ elim (Bool-cases (i == 0)) [
      | inl empty ↦
          leave_nowhere (rw at (rw empty))
            (nowhere-IsConsistent left (leave_at 0 (rw at (ap some ((==_iff i 0).0 empty)))))
      | inr named ↦
          rw (at, named, reconcile_released) (reconcile-IsConsistent left i true (leave_at i at))
    ]
  ]

complete_found-IsConsistent :
    (db : Db) (d : Delivery) (actor : Actor) (now : ℕ)
    → IsConsistent db
    → find_delivery d.id db ≡ some d
    → IsConsistent (complete_found db d actor now).0
unfolding complete_found release_slot_for_delivery
complete_found-IsConsistent db d actor now c h =
    leave-IsConsistent db (mark_completed now) _ d (λ x. refl)
      (λ j. inactive-mark_completed j now d) c h

-- Completing a delivery, whatever the outcome, keeps the yard consistent.
pub complete_delivery-IsConsistent :
    (db : Db) (i : ℕ) (actor : Actor) (now : ℕ)
    → IsConsistent db
    → IsConsistent (complete_delivery db i actor now).0
unfolding complete_delivery
complete_delivery-IsConsistent db i actor now c = elim (Option-cases (find_delivery i db)) [
  | inl e ↦ rw (e, complete_delivery) c
  | inr (d, e) ↦
      let e' = rw (sym (key-find_row delivery_id i db.deliveries d e)) at e in
      elim (Bool-cases (includes completable_statuses d.status)) [
        | inl y ↦
            rw (complete_delivery_done db i actor now d e y)
              (complete_found-IsConsistent db d actor now c e')
        | inr n ↦ rw (complete_delivery_refused db i actor now d e n) c
      ]
]

cancel_found-IsConsistent :
    (db : Db) (d : Delivery) (reason : ℕ) (actor : Actor) (m : Message) (now : ℕ)
    → IsConsistent db
    → find_delivery d.id db ≡ some d
    → IsConsistent (cancel_found db d reason actor m now).0
unfolding cancel_found release_slot_for_delivery
cancel_found-IsConsistent db d reason actor m now c h =
    leave-IsConsistent db (mark_cancelled reason now) _ d (λ x. refl)
      (λ j. inactive-mark_cancelled j reason now d) c h

-- Cancelling a delivery, whatever the outcome, keeps the yard consistent.
pub cancel_delivery-IsConsistent :
    (db : Db) (i reason : ℕ) (actor : Actor) (m : Message) (now : ℕ)
    → IsConsistent db
    → IsConsistent (cancel_delivery db i reason actor m now).0
unfolding cancel_delivery
cancel_delivery-IsConsistent db i reason actor m now c = elim (Option-cases (find_delivery i db)) [
  | inl e ↦ rw (e, cancel_delivery) c
  | inr (d, e) ↦
      let e' = rw (sym (key-find_row delivery_id i db.deliveries d e)) at e in
      elim (Bool-cases (is_cancellable d.status)) [
        | inl y ↦
            rw (cancel_delivery_done db i reason actor m now d e y)
              (cancel_found-IsConsistent db d reason actor m now c e')
        | inr n ↦ rw (cancel_delivery_refused db i reason actor m now d e n) c
      ]
]

-- A reconciliation keeps the history rows.
pub histories-reconcile_released :
    (o : Option ℕ) (db : Db) → (reconcile_released o db).histories ≡ db.histories
unfolding reconcile_released
histories-reconcile_released none db = refl
histories-reconcile_released (some i) db = rw (reconcile_slot_state-update db i true) refl
