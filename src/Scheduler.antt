-- ===== src/Scheduler.antt =====
-- backend/src/modules/scheduler/schedulerService.ts: the lock that keeps runs of one job apart.
-- A run awaits its job, so ticks of the timer come between its start and its end. The timer itself
-- (node-cron) and the dates of the next run are not modelled beyond the date that is stored. The route
-- that closes a day by hand takes no lock, and is no event here.
pub mod Laws
use delivery_driver_manageme.Base.{
  ℕ, suc, zero, ◌+◌, ◌-◌, Bool, true, false, if◌then◌else◌, Option, none, some, List, [], ◌∷◌,
}
use delivery_driver_manageme.NoShow.{JobResult}

pub record JobState : Type 0 where
  pub is_running : Bool
  pub last_run_at : Option ℕ
  pub last_result : Option JobResult
  pub next_run_at : Option ℕ

-- `runJob` up to its `await`: the state, and whether a run has started.
unfoldable pub start_job : ℕ → JobState → JobState × Bool
start_job now s =
    if s.is_running
    then (s, false)
    else (record s { is_running = true; last_run_at = some now }, true)

abbrev result_or : Option JobResult → Option JobResult → Option JobResult
result_or none old = old
result_or (some r) old = some r

-- The rest of `runJob`; no result stands for a job that threw.
unfoldable pub finish_job : Option JobResult → ℕ → JobState → JobState
finish_job result next s = record s {
  is_running = false;
  last_result = result_or result s.last_result;
  next_run_at = some next;
}

-- What can happen: the timer ticks at a time, or the job of a run that is in progress ends.
pub data SchedulerEvent : Type 0 where
  tick : ℕ → SchedulerEvent
  ended : Option JobResult → ℕ → SchedulerEvent

-- The state, with the number of runs in progress.
abbrev pub Runs : Type 0
Runs = JobState × ℕ

-- An end comes only while a run is in progress.
unfoldable pub on_event : SchedulerEvent → Runs → Runs
on_event (tick now) (s, runs) =
    let (s', started) = start_job now s in (s', if started then runs + 1 else runs)
on_event (ended result next) (s, zero) = (s, zero)
on_event (ended result next) (s, suc runs) = (finish_job result next s, runs)

unfoldable pub on_events : List SchedulerEvent → Runs → Runs
on_events [] s = s
on_events (e ∷ es) s = on_events es (on_event e s)
