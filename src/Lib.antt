-- ===== src/Lib.antt =====
-- A model of the backend of the delivery driver management system, with its correctness theorems.
--
-- Trucks and motorbikes register a delivery, check in at the gate, wait in a queue, are called into a
-- slot of a receiving unit, and complete or are cancelled. The services share one PostgreSQL database;
-- the model's state is the record `Db` of its tables, and each `$transaction` is a function on it.
--
-- Schema, Store: the rows and tables of backend/prisma/schema.prisma, and the queries that the
--   services use. Identifiers and texts that the code only compares are numbers, 0 the empty text.
-- SlotState: backend/src/services/slotState.ts (reconcileSlotState, reconcileAllSlots).
-- Consistency: the invariant of the yard, on ids, statuses and capacities.
-- History: backend/src/modules/history/historyService.ts and historyRepository.ts.
-- Lifecycle: backend/src/services/deliveryLifecycle.ts (completeDelivery, cancelDelivery).
-- AutoAssign: backend/src/services/autoAssign.ts (candidateGoodsForSlot,
--   findNextWaitingDeliveryForSlot, assignNextDeliveryToSlot, triggerAutoAssign).
-- Tickets: backend/src/services/ticketSequence.ts and backend/src/lib/dateVN.ts.
-- CheckIn: backend/src/services/checkInDelivery.ts and autoWarehousePolicy.ts.
-- ManualCall: backend/src/services/manualCallDelivery.ts.
-- NoShow: autoCancelCalledNoShowDeliveries of backend/src/modules/scheduler/deliveryJobs.ts. What other
--   transactions write between its turns is a function argument.
-- Permissions: backend/src/domain/permissions.ts and permissionAssertions.ts.
-- Slots: updateSlotStatus, reconcileSlot, assignDeliveryToSlot and deleteSlot of
--   backend/src/modules/slots/slotService.ts, with backend/src/services/realtimeScope.ts.
-- RateLimit: backend/src/middleware/rateLimit.ts.
-- Reception: startReceiving, cancel and complete of backend/src/modules/deliveries/deliveryService.ts. What
--   other transactions write between the read and the update of startReceiving is a function argument.
-- Handlers: checkInById and callDelivery of backend/src/modules/deliveries/deliveryService.ts, without
--   their audit records and messages.
-- Archive: backend/src/modules/history/archiveService.ts and the parts of backend/src/helperFunction.ts
--   that it uses. The id of a new history row is an argument.
-- CloseDay: closeDailyDeliveries of backend/src/modules/scheduler/deliveryJobs.ts. What other
--   transactions write between its turns is a function argument.
-- Registration: backend/src/services/registrationSequence.ts. Register: the transaction of
--   registerDelivery in backend/src/modules/deliveries/deliveryService.ts, with the queries that it makes.
-- Workflow: the transactions that move a delivery as one step relation, and the abstract specification of
--   a delivery's life that they are compared with. The update of startReceiving, which holds no lock, is a
--   step only where the delivery is still called, and a call by hand only where the delivery waits or is in
--   the slot. Registration, and what adds, changes or removes slots, are no steps.
-- ArchiveJob: archiveDeliveries of backend/src/modules/scheduler/deliveryJobs.ts. Its loop over batches has
--   fuel for every candidate; a batch takes one at least, so it ends before the fuel does.
-- Scheduler: runJob of backend/src/modules/scheduler/schedulerService.ts, with ticks of the timer and ends of
--   runs as a sequence of events.
-- TimeSlots: the windows, time slots and capacity of a day of backend/src/modules/units/unitService.ts and
--   deliveryRepository.ts. The loop over a window has fuel for each minute up to the window's end, so it
--   returns; the number of minutes of a slot is at least 1.
-- Examples: a small yard, and each theorem that has conditions applied to it.
--
-- Each service calls reconcileSlotState after it changes the deliveries of a slot, so that the slot's
-- status and current delivery agree with the deliveries that are active there; the check-in reserves
-- a ticket number, and a check-in, a completion or a cancellation is followed by triggerAutoAssign.
--
-- Bounds and fuel: numbers are unbounded, as the counters of the code stay far below 2^53. The loop of
-- triggerAutoAssign runs on fuel; each round but the last calls one waiting delivery, so one more than
-- the number of waiting deliveries is enough.
--
-- Parameters: the days of the time zone, the collation of codes, Unicode's upper-case table, the rows
-- that other transactions hold, and the clock.
--
-- Not modelled: sockets, push messages, the audit log, the JSON metadata of events, HTTP routes,
-- sign-in, files, reports, and the frontend, which are input and output around these services.
mod Base
pub mod Schema
pub mod Store
pub mod Scheduler
pub mod SlotState
pub mod Consistency
pub mod TimeSlots
pub mod Handlers
pub mod History
pub mod Lifecycle
pub mod AutoAssign
pub mod Tickets
pub mod Workflow
pub mod Archive
pub mod ArchiveJob
pub mod CheckIn
pub mod CloseDay
pub mod ManualCall
pub mod NoShow
pub mod Permissions
pub mod Slots
pub mod RateLimit
pub mod Register
pub mod Registration
pub mod Reception
pub mod Examples
