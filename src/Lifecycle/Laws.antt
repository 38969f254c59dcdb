-- ===== src/Lifecycle/Laws.antt =====
-- What completing and cancelling a delivery do, on every branch.
use delivery_driver_manageme.Base.{
  not, ◌∙◌, ap, length, suc, ℕ, ◌+◌, ◌≡◌, refl, Bool, true, false, bit, Option, none, some, arith,
  includes, count_by, find_row-update_row_self, count_by-update_row, key-find_row, ◌⊎◌, update_row,
}
use delivery_driver_manageme.Schema.{
  DeliveryStatus, registered, waiting, called, receiving, auto_warehouse_receiving, status_eq,
  Delivery, Actor, Message,
}
use delivery_driver_manageme.Store.{Db, find_delivery, delivery_id, IsKeyed}
use delivery_driver_manageme.SlotState.{is_active_at, occupancy}
use delivery_driver_manageme.SlotState.Laws.{reconcile_slot_state-update}
use delivery_driver_manageme.Lifecycle.{
  non_cancellable_statuses, Outcome, already_completed, already_cancelled, invalid_status,
  completable_statuses, mark_completed, mark_cancelled, complete_found, cancel_found,
  complete_delivery, cancel_delivery, reconcile_released, release_slot_for_delivery,
  slot_to_release,
}

-- The verdict on each status, as a table.
abbrev pub complete_verdict : DeliveryStatus → Outcome
complete_verdict registered = invalid_status
complete_verdict waiting = invalid_status
complete_verdict called = Outcome.completed
complete_verdict receiving = Outcome.completed
complete_verdict auto_warehouse_receiving = Outcome.completed
complete_verdict DeliveryStatus.completed = already_completed
complete_verdict DeliveryStatus.cancelled = invalid_status
complete_verdict DeliveryStatus.expired = invalid_status
complete_verdict DeliveryStatus.incompleted = invalid_status

abbrev pub cancel_verdict : DeliveryStatus → Outcome
cancel_verdict registered = Outcome.cancelled
cancel_verdict waiting = Outcome.cancelled
cancel_verdict called = Outcome.cancelled
cancel_verdict receiving = Outcome.cancelled
cancel_verdict auto_warehouse_receiving = Outcome.cancelled
cancel_verdict DeliveryStatus.completed = invalid_status
cancel_verdict DeliveryStatus.cancelled = already_cancelled
cancel_verdict DeliveryStatus.expired = invalid_status
cancel_verdict DeliveryStatus.incompleted = Outcome.cancelled

deliveries-reconcile_released :
    (o : Option ℕ) (db : Db) → (reconcile_released o db).deliveries ≡ db.deliveries
unfolding reconcile_released
deliveries-reconcile_released none db = refl
deliveries-reconcile_released (some i) db = rw (reconcile_slot_state-update db i true) refl

pub events-reconcile_released :
    (o : Option ℕ) (db : Db) → (reconcile_released o db).events ≡ db.events
unfolding reconcile_released
events-reconcile_released none db = refl
events-reconcile_released (some i) db = rw (reconcile_slot_state-update db i true) refl

pub deliveries-complete_found :
    (db : Db) (d : Delivery) (actor : Actor) (now : ℕ)
    → (complete_found db d actor now).0.deliveries
      ≡ update_row delivery_id d.id (mark_completed now) db.deliveries
unfolding complete_found release_slot_for_delivery
deliveries-complete_found db d actor now = deliveries-reconcile_released _ _

pub deliveries-cancel_found :
    (db : Db) (d : Delivery) (reason : ℕ) (actor : Actor) (m : Message) (now : ℕ)
    → (cancel_found db d reason actor m now).0.deliveries
      ≡ update_row delivery_id d.id (mark_cancelled reason now) db.deliveries
unfolding cancel_found release_slot_for_delivery
deliveries-cancel_found db d reason actor m now = deliveries-reconcile_released _ _

-- Completing a delivery that exists gives the verdict of the table, and only the verdict
-- `completed` changes the database.
pub complete_delivery_verdict :
    (db : Db) (i : ℕ) (actor : Actor) (now : ℕ) (d : Delivery)
    → find_delivery i db ≡ some d
    → let (db', r) = complete_delivery db i actor now in
      (r.outcome ≡ complete_verdict d.status) × ((r.outcome ≡ Outcome.completed) ⊎ (db' ≡ db))
unfolding complete_delivery
complete_delivery_verdict db i actor now d h = rw (h, complete_delivery) (ground arith)

-- Cancelling a delivery that exists gives the verdict of the table, and only the verdict
-- `cancelled` changes the database.
pub cancel_delivery_verdict :
    (db : Db) (i reason : ℕ) (actor : Actor) (m : Message) (now : ℕ) (d : Delivery)
    → find_delivery i db ≡ some d
    → let (db', r) = cancel_delivery db i reason actor m now in
      (r.outcome ≡ cancel_verdict d.status) × ((r.outcome ≡ Outcome.cancelled) ⊎ (db' ≡ db))
unfolding cancel_delivery
cancel_delivery_verdict db i reason actor m now d h = rw (h, cancel_delivery) (ground arith)

pub complete_delivery_done :
    (db : Db) (i : ℕ) (actor : Actor) (now : ℕ) (d : Delivery)
    → find_delivery i db ≡ some d
    → includes completable_statuses d.status ≡ true
    → complete_delivery db i actor now ≡ complete_found db d actor now
unfolding complete_delivery
complete_delivery_done db i actor now d h c = rw (h, complete_delivery) (ground arith)

pub complete_delivery_refused :
    (db : Db) (i : ℕ) (actor : Actor) (now : ℕ) (d : Delivery)
    → find_delivery i db ≡ some d
    → includes completable_statuses d.status ≡ false
    → (complete_delivery db i actor now).0 ≡ db
unfolding complete_delivery
complete_delivery_refused db i actor now d h c = rw (h, complete_delivery) (ground arith)

-- A status that the code neither takes for cancelled nor refuses.
abbrev pub is_cancellable : DeliveryStatus → Bool
is_cancellable s = not (includes non_cancellable_statuses s)

pub cancel_delivery_done :
    (db : Db) (i reason : ℕ) (actor : Actor) (m : Message) (now : ℕ) (d : Delivery)
    → find_delivery i db ≡ some d
    → is_cancellable d.status ≡ true
    → cancel_delivery db i reason actor m now ≡ cancel_found db d reason actor m now
unfolding cancel_delivery
cancel_delivery_done db i reason actor m now d h c = rw (h, cancel_delivery) (ground arith)

pub cancel_delivery_refused :
    (db : Db) (i reason : ℕ) (actor : Actor) (m : Message) (now : ℕ) (d : Delivery)
    → find_delivery i db ≡ some d
    → is_cancellable d.status ≡ false
    → (cancel_delivery db i reason actor m now).0 ≡ db
unfolding cancel_delivery
cancel_delivery_refused db i reason actor m now d h c = rw (h, cancel_delivery) (ground arith)

-- The occupancies once one row is rewritten.
pub occupancy-update :
    (db : Db) (i j : ℕ) (f : Delivery → Delivery) (d : Delivery)
    → IsKeyed db
    → find_delivery i db ≡ some d
    → count_by (is_active_at j) (update_row delivery_id i f db.deliveries) + bit (is_active_at j d)
      ≡ occupancy j db + bit (is_active_at j (f d))
occupancy-update db i j f d k h =
    count_by-update_row delivery_id (is_active_at j) i f db.deliveries d k.deliveries_unique h

pub inactive-mark_completed :
    (j now : ℕ) (d : Delivery) → bit (is_active_at j (mark_completed now d)) ≡ 0
unfolding is_active_at
inactive-mark_completed j now d = ground arith

pub inactive-mark_cancelled :
    (j reason now : ℕ) (d : Delivery) → bit (is_active_at j (mark_cancelled reason now d)) ≡ 0
unfolding is_active_at
inactive-mark_cancelled j reason now d = ground arith

module _ (db : Db) (i : ℕ) (actor : Actor) (now : ℕ) (d : Delivery) (k : IsKeyed db)
    (h : find_delivery i db ≡ some d) (c : includes completable_statuses d.status ≡ true) where
  deliveries-complete_delivery :
      (complete_delivery db i actor now).0.deliveries
      ≡ update_row delivery_id i (mark_completed now) db.deliveries
  deliveries-complete_delivery = rw (complete_delivery_done db i actor now d h c) (
      deliveries-complete_found db d actor now
      ∙ ap (λ n. update_row delivery_id n (mark_completed now) db.deliveries)
          (key-find_row delivery_id i db.deliveries d h))

  -- A delivery that exists, in a status that can be completed, is stored as completed at the given
  -- time; its slot is reported as released, one event is added, and every slot loses exactly the
  -- place that the delivery took there.
  pub complete_delivery_effect :
      let (db', r) = complete_delivery db i actor now in
      (find_delivery i db' ≡ some (mark_completed now d))
      × (r.released_slot_id ≡ slot_to_release d)
      × (length db'.events ≡ suc (length db.events))
      × ((j : ℕ) → occupancy j db' + bit (is_active_at j d) ≡ occupancy j db)
  unfolding complete_found release_slot_for_delivery
  complete_delivery_effect = (
    rw deliveries-complete_delivery
        (find_row-update_row_self delivery_id (mark_completed now) (λ x. refl) i db.deliveries d h),
    rw (complete_delivery_done db i actor now d h c) refl,
    rw (complete_delivery_done db i actor now d h c) (ap length (events-reconcile_released _ _)),
    λ j. rw deliveries-complete_delivery (
        omega (
          arith,
          occupancy-update db i j (mark_completed now) d k h,
          inactive-mark_completed j now d,
        )),
  )

module _ (db : Db) (i reason : ℕ) (actor : Actor) (m : Message) (now : ℕ) (d : Delivery)
    (k : IsKeyed db) (h : find_delivery i db ≡ some d) (c : is_cancellable d.status ≡ true) where
  pub deliveries-cancel_delivery :
      (cancel_delivery db i reason actor m now).0.deliveries
      ≡ update_row delivery_id i (mark_cancelled reason now) db.deliveries
  deliveries-cancel_delivery = rw (cancel_delivery_done db i reason actor m now d h c) (
      deliveries-cancel_found db d reason actor m now
      ∙ ap (λ n. update_row delivery_id n (mark_cancelled reason now) db.deliveries)
          (key-find_row delivery_id i db.deliveries d h))

  pub cancel_delivery_effect :
      let (db', r) = cancel_delivery db i reason actor m now in
      (find_delivery i db' ≡ some (mark_cancelled reason now d))
      × (r.released_slot_id ≡ slot_to_release d)
      × (length db'.events ≡ suc (length db.events))
      × ((j : ℕ) → occupancy j db' + bit (is_active_at j d) ≡ occupancy j db)
  unfolding cancel_found release_slot_for_delivery
  cancel_delivery_effect = (
    rw deliveries-cancel_delivery (
        find_row-update_row_self delivery_id (mark_cancelled reason now) (λ x. refl) i db.deliveries
          d h),
    rw (cancel_delivery_done db i reason actor m now d h c) refl,
    rw (cancel_delivery_done db i reason actor m now d h c)
        (ap length (events-reconcile_released _ _)),
    λ j. rw deliveries-cancel_delivery (
        omega (
          arith,
          occupancy-update db i j (mark_cancelled reason now) d k h,
          inactive-mark_cancelled j reason now d,
        )),
  )

-- The final statuses absorb: once a delivery has been completed, completing it again and cancelling
-- it are both refused and change nothing; likewise once it has been cancelled.
pub closed_stays_closed :
    (db : Db) (i reason : ℕ) (actor : Actor) (m : Message) (now : ℕ) (d : Delivery)
    → find_delivery i db ≡ some d
    → (d.status ≡ DeliveryStatus.completed) ⊎ (d.status ≡ DeliveryStatus.cancelled)
    → let (db', r) = complete_delivery db i actor now in
      let (db'', s) = cancel_delivery db i reason actor m now in
      (db' ≡ db)
      × (db'' ≡ db)
      × (r.changed ≡ false)
      × (s.changed ≡ false)
      × (r.released_slot_id ≡ none)
      × (s.released_slot_id ≡ none)
unfolding complete_delivery cancel_delivery
closed_stays_closed db i reason actor m now d h closed =
    rw (h, complete_delivery, cancel_delivery) (ground arith)
