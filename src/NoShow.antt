-- ===== src/NoShow.antt =====
-- backend/src/modules/scheduler/deliveryJobs.ts: autoCancelCalledNoShowDeliveries.
-- The job's history rows, audit records and messages are not modelled, nor is the automatic
-- assignment that it starts without waiting for it. No query of the job fails here.
pub mod Turns
pub mod Laws
use delivery_driver_manageme.Base.{
  ℕ, suc, ◌+◌, ◌-◌, ◌/◌, ltb, Bool, true, false, ◌&&◌, ◌||◌, if◌then◌else◌, is_some, bit, length,
  Option, none, some, List, [], ◌∷◌, select, sort_by, ◌===◌,
}
use delivery_driver_manageme.Schema.{
  DeliveryStatus, status_eq, UnitConfig, Delivery, Message, HistoryEvent,
}
use delivery_driver_manageme.Store.{Db, config_of}
use delivery_driver_manageme.History.{get_last_call_history_event}
use delivery_driver_manageme.Lifecycle.{DeliveryResult, cancel_delivery}
use delivery_driver_manageme.AutoAssign.{auto_assign_actor}

abbrev auto_cancels : Option UnitConfig → Bool
auto_cancels none = false
auto_cancels (some u) = u.auto_cancel_called_enabled

-- The `where` of the candidates.
unfoldable pub is_candidate : Db → Delivery → Bool
is_candidate db d =
    d.status === DeliveryStatus.called
    && is_some d.called_time
    && auto_cancels (config_of d.unit_config_id db)

abbrev called_before : Option ℕ → Option ℕ → Bool
called_before (some a) (some b) = ltb a b
called_before _ _ = false

unfoldable pub candidates : Db → List Delivery
candidates db =
    sort_by (λ a b. called_before a.called_time b.called_time)
      (select (is_candidate db) db.deliveries)

abbrev event_time : Option HistoryEvent → Option ℕ → Option ℕ
event_time none called_time = called_time
event_time (some e) called_time = some e.occurred_at

-- `latestCallEvent?.occurredAt ?? candidate.calledTime`
unfoldable pub last_called_at : Db → Delivery → Option ℕ
last_called_at db d = event_time (get_last_call_history_event d.id db) d.called_time

abbrev minutes_or_default : Option UnitConfig → ℕ
minutes_or_default none = 15
minutes_or_default (some u) = u.auto_cancel_called_after_minutes

-- `unitConfig?.autoCancelCalledAfterMinutes ?? 15`, as the query read it.
unfoldable pub threshold_minutes : Db → Delivery → ℕ
threshold_minutes db d = minutes_or_default (config_of d.unit_config_id db)

-- `elapsedMinutes < thresholdMinutes`, where a call in the future has a negative elapsed time.
unfoldable pub too_early : ℕ → ℕ → ℕ → Bool
too_early now last threshold = ltb now last || ltb ((now - last) / 60000) threshold

pub record JobResult : Type 0 where
  pub processed : ℕ
  pub succeeded : ℕ
  pub failed : ℕ

-- `clock k` is the time at the `k`-th candidate; `label` and `reason` are the job's two texts.
module _ (clock : ℕ → ℕ) (label reason : ℕ) where
  -- One turn of the loop: the database after it, and whether it counts as succeeded. `read` is the
  -- database at the time of the query.
  unfoldable pub cancel_candidate : Db → ℕ → Db → Delivery → Db × Bool
  cancel_candidate read k db d = elim (last_called_at db d) [
    | none ↦ (db, false)
    | some last ↦
        if too_early (clock k) last (threshold_minutes read d)
        then (db, false)
        else (let (db', r) =
              cancel_delivery db d.id reason (auto_assign_actor label) (Message.other reason)
                (clock k) in
            (db', is_some r.delivery && r.changed))
  ]

  -- `others n` is what other transactions write before the turn with `n` candidates left.
  module _ (others : ℕ → Db → Db) where
    unfoldable pub cancel_each : Db → ℕ → Db → List Delivery → Db × ℕ
    cancel_each read k db [] = (db, 0)
    cancel_each read k db (d ∷ ds) =
        let (db', done) = cancel_candidate read k (others (length ds) db) d in
        let (db'', n) = cancel_each read (k + 1) db' ds in (db'', bit done + n)

    unfoldable pub auto_cancel_called_no_show_deliveries : Db → Db × JobResult
    auto_cancel_called_no_show_deliveries db =
        let (db', n) = cancel_each db 0 db (candidates db) in
        (db', record { processed = length (candidates db); succeeded = n; failed = 0 })
