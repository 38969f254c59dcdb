-- ===== src/Scheduler/Laws.antt =====
-- Runs of one job never overlap.
use delivery_driver_manageme.Base.{
  ℕ, suc, zero, ◌≡◌, refl, bit, List, [], ◌∷◌, arith, Bool-cases, inl, inr,
}
use delivery_driver_manageme.Scheduler.{
  JobState, start_job, finish_job, SchedulerEvent, tick, ended, Runs, on_event, on_events,
}

-- The lock is set exactly while one run is in progress.
abbrev pub IsLocked : Runs → Type 0
IsLocked s = s.1 ≡ bit s.0.is_running

on_event-IsLocked :
    (e : SchedulerEvent) (s : JobState) (runs : ℕ)
    → IsLocked (s, runs)
    → IsLocked (on_event e (s, runs))
unfolding on_event start_job finish_job
on_event-IsLocked (tick now) s runs h = elim (Bool-cases s.is_running) [
  | inl busy ↦ rw busy (rw busy at h)
  | inr idle ↦ let e : runs ≡ 0 = rw idle at h in rw (idle, e) refl
]
on_event-IsLocked (ended result next) s zero h = h
on_event-IsLocked (ended result next) s (suc runs) h = ground (arith, h)

-- From a state whose lock tells whether a run is in progress, any sequence of ticks and ends of runs, in any
-- order, leaves such a state: there is never more than one run of the job.
pub on_events-IsLocked :
    (es : List SchedulerEvent) (s : Runs) → IsLocked s → IsLocked (on_events es s)
unfolding on_events
on_events-IsLocked [] s h = h
on_events-IsLocked (e ∷ es) s h =
    on_events-IsLocked es (on_event e s) (on_event-IsLocked e s.0 s.1 h)
