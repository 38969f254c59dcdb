-- ===== src/Workflow.antt =====
-- The life of a delivery over the operations of the services, and its abstract specification.
-- One step is a transaction of: check-in (backend/src/services/checkInDelivery.ts), automatic assignment
-- (autoAssign.ts), a call by hand (manualCallDelivery.ts), completion and cancellation
-- (deliveryLifecycle.ts), a change of a slot's status (backend/src/modules/slots/slotService.ts), a turn of
-- the daily close or of the archive job (backend/src/modules/scheduler/deliveryJobs.ts), or the update of
-- the start of a reception (backend/src/modules/deliveries/deliveryService.ts).
-- That update has no lock. It is a step only where the delivery is still called, and a call by hand only
-- where the delivery waits or is in the slot already; Reception.Laws covers the update of any other row.
-- Registration, and the operations that add, change or remove slots, are no steps.
pub mod Moves
pub mod Refinement
use delivery_driver_manageme.Base.{ℕ, ◌≡◌, ◌⊎◌, List, Option, none, some, Bool, true, includes, ok}
use delivery_driver_manageme.Schema.{
  Text, DeliveryStatus, waiting, called, receiving, auto_warehouse_receiving, status_eq, SlotStatus,
  Delivery, Actor, Message,
}
use delivery_driver_manageme.Store.{Db, find_delivery}
use delivery_driver_manageme.Lifecycle.{completable_statuses, complete_delivery, cancel_delivery}
use delivery_driver_manageme.Lifecycle.Laws.{is_cancellable}
use delivery_driver_manageme.AutoAssign.{assign_next_delivery_to_slot}
use delivery_driver_manageme.Tickets.{Calendar}
use delivery_driver_manageme.CheckIn.{CheckInResult, check_in_delivery}
use delivery_driver_manageme.Reception.{receive_called}
use delivery_driver_manageme.ManualCall.{manual_call_delivery}
use delivery_driver_manageme.Slots.{write_status}
use delivery_driver_manageme.Archive.{archive_delivery_in_transaction}
use delivery_driver_manageme.NoShow.{JobResult}
use delivery_driver_manageme.ArchiveJob.{
  ArchiveJob, completed_input, cancelled_input, delete_ready, count_archived,
}
use delivery_driver_manageme.CloseDay.{CloseArgs, CloseJob, close_candidate}

-- The abstract state: a status, or nothing when there is no such row.
abbrev pub status_of_row : Option Delivery → Option DeliveryStatus
status_of_row none = none
status_of_row (some d) = some d.status

abbrev pub status_of : ℕ → Db → Option DeliveryStatus
status_of i db = status_of_row (find_delivery i db)

-- A delivery whose row the daily close or the archive job removes.
pub data IsEnding : DeliveryStatus → Type 0 where
  absent : IsEnding DeliveryStatus.registered
  in_reception : IsEnding receiving
  in_warehouse : IsEnding auto_warehouse_receiving
  after_completion : IsEnding DeliveryStatus.completed
  after_cancellation : IsEnding DeliveryStatus.cancelled

-- The abstract specification: how the status of one delivery may change.
pub data CanMove : Option DeliveryStatus → Option DeliveryStatus → Type 0 where
  stays : (s : Option DeliveryStatus) → CanMove s s
  arrives : CanMove (some DeliveryStatus.registered) (some waiting)
  is_called : CanMove (some waiting) (some called)
  is_received : CanMove (some called) (some receiving)
  is_received_automatically : CanMove (some called) (some auto_warehouse_receiving)
  is_completed :
      (s : DeliveryStatus)
      → includes completable_statuses s ≡ true
      → CanMove (some s) (some DeliveryStatus.completed)
  is_cancelled :
      (s : DeliveryStatus)
      → is_cancellable s ≡ true
      → CanMove (some s) (some DeliveryStatus.cancelled)
  ends : (s : DeliveryStatus) → IsEnding s → CanMove (some s) none

-- One transaction.
pub data Step : Db → Db → Type 0 where
  check_in :
      (calendar : Calendar) (upper : ℕ → Text) (i : ℕ) (expected : Option (Option ℕ))
      (actor : Actor) (now : ℕ) (db db' : Db) (r : CheckInResult)
      → check_in_delivery calendar upper db i expected actor now ≡ ok (db', r)
      → Step db db'
  assign :
      (locked : ℕ → Bool) (i unit label now : ℕ) (db : Db)
      → Step db (assign_next_delivery_to_slot locked db i unit label now).0
  call_by_hand :
      (i j : ℕ) (actor : Actor) (now : ℕ) (d : Delivery) (db : Db)
      → find_delivery i db ≡ some d
      → (d.status ≡ waiting) ⊎ (d.assigned_slot_id ≡ some j)
      → Step db (manual_call_delivery db i j actor now).0
  receive :
      (actor : Actor) (now : ℕ) (d e : Delivery) (db : Db)
      → find_delivery d.id db ≡ some e
      → d.status ≡ called
      → e.status ≡ called
      → Step db (receive_called db d e actor now)
  complete :
      (i : ℕ) (actor : Actor) (now : ℕ) (db : Db) → Step db (complete_delivery db i actor now).0
  cancel :
      (i reason : ℕ) (actor : Actor) (m : Message) (now : ℕ) (db : Db)
      → Step db (cancel_delivery db i reason actor m now).0
  close :
      (args : CloseArgs) (job : CloseJob) (now new_id i : ℕ) (db : Db)
      → Step db (close_candidate args job now new_id db i).0
  archive_ready : (ready : List Delivery) (db : Db) → Step db (delete_ready ready db)
  archive_completed :
      (job : ArchiveJob) (new_id now : ℕ) (d : Delivery) (r : JobResult) (db : Db)
      → Step db
          (count_archived db r
            (archive_delivery_in_transaction new_id now db (completed_input job d))).0
  archive_cancelled :
      (job : ArchiveJob) (new_id now : ℕ) (d : Delivery) (r : JobResult) (db : Db)
      → Step db
          (count_archived db r
            (archive_delivery_in_transaction new_id now db (cancelled_input job now d))).0
  set_slot_status : (i : ℕ) (status : SlotStatus) (db : Db) → Step db (write_status db i status).0

-- Any number of transactions, in any order.
pub data Reaches : Db → Db → Type 0 where
  here : (db : Db) → Reaches db db
  then_ : (a b c : Db) → Reaches a b → Step b c → Reaches a c

-- Any number of moves of the specification.
pub data CanReach : Option DeliveryStatus → Option DeliveryStatus → Type 0 where
  at_once : (s : Option DeliveryStatus) → CanReach s s
  after : (s t u : Option DeliveryStatus) → CanReach s t → CanMove t u → CanReach s u

-- A status that a delivery leaves only by being removed.
pub data IsFinal : Option DeliveryStatus → Type 0 where
  done : IsFinal (some DeliveryStatus.completed)
  dropped : IsFinal (some DeliveryStatus.cancelled)
