-- ===== src/Workflow/Refinement.antt =====
-- The services refine the abstract specification of a delivery's life.
use delivery_driver_manageme.Base.{
  ℕ, ◌≡◌, refl, sym, subst, Option, some, none, ◌⊎◌, inl, inr, true, arith, Bool-cases, ◌===◌,
}
use delivery_driver_manageme.Schema.{
  DeliveryStatus, receiving, auto_warehouse_receiving, status_eq, Delivery,
}
use delivery_driver_manageme.Store.{Db}
use delivery_driver_manageme.CloseDay.{CloseArgs, CloseJob, Turn, is_unfinished, ends_unfinished}
use delivery_driver_manageme.CloseDay.Laws.{IsSound, IsTurn, close_candidate_effect}
use delivery_driver_manageme.ArchiveJob.Turns.{delete_ready-IsSafe}
use delivery_driver_manageme.ArchiveJob.Laws.{count_archived-IsSafe}
use delivery_driver_manageme.ArchiveJob.Job.{completed_input-IsJobInput, cancelled_input-IsJobInput}
use delivery_driver_manageme.Workflow.Moves.Removals.{
  IsSafe-IsMove, write_status-IsMove, manual_call_delivery-IsMove,
}
use delivery_driver_manageme.Workflow.{
  status_of, status_of_row, IsEnding, CanMove, CanReach, IsFinal, Step, Reaches,
}
use delivery_driver_manageme.Workflow.Moves.{
  IsMove, complete_delivery-IsMove, cancel_delivery-IsMove,
}
use delivery_driver_manageme.Workflow.Moves.Calls.{
  receive_called-IsMove, assign_next_delivery_to_slot-IsMove, check_in_delivery-IsMove,
}

unfinished-IsEnding :
    (args : CloseArgs) (job : CloseJob) (db : Db) (d : Delivery)
    → is_unfinished args job db d ≡ true
    → IsEnding d.status
unfolding is_unfinished ends_unfinished
unfinished-IsEnding args job db d due = elim (Bool-cases (d.status === DeliveryStatus.registered)) [
  | inl e ↦ subst IsEnding (sym ((status_eq.eq_iff _ _).0 e)) IsEnding.absent
  | inr other ↦ elim (Bool-cases (d.status === receiving)) [
    | inl e ↦ subst IsEnding (sym ((status_eq.eq_iff _ _).0 e)) IsEnding.in_reception
    | inr other' ↦
        let e : (d.status === auto_warehouse_receiving) ≡ true =
          ground (arith, due, other, other') in
        subst IsEnding (sym ((status_eq.eq_iff _ _).0 e)) IsEnding.in_warehouse
  ]
]

turn-CanMove :
    (args : CloseArgs) (job : CloseJob) (db : Db) (i : ℕ) (db' : Db) (turn : Turn)
    → IsTurn args job db i db' turn
    → (j : ℕ) → CanMove (status_of j db) (status_of j db')
turn-CanMove args job db i db' turn (inl (_, same, _)) j =
    subst (λ z. CanMove (status_of j db) (status_of j z)) (sym same)
      (CanMove.stays (status_of j db))
turn-CanMove args job db i db' turn (inr (_, (d, _, found, due, gone, _, _), rest)) j =
    elim (rest j) [
      | inl own ↦
          subst (λ k. CanMove (status_of k db) (status_of k db')) own
            (subst (λ z. CanMove (status_of_row z) (status_of i db')) (sym found)
              (subst (λ z. CanMove (some d.status) (status_of_row z)) (sym gone)
                (CanMove.ends d.status (unfinished-IsEnding args job db d due))))
      | inr same ↦
          subst (λ z. CanMove (status_of j db) (status_of_row z)) (sym same)
            (CanMove.stays (status_of j db))
    ]

-- From a consistent yard with one history row per delivery, every transaction leaves such a yard, and
-- changes the status of every delivery only as the abstract specification allows.
pub Step-IsMove : (db db' : Db) → IsSound db → Step db db' → IsMove db db'
Step-IsMove db db' sound (Step.check_in calendar upper i expected actor now _ _ r h) =
    check_in_delivery-IsMove calendar upper actor now db sound db' r i expected h
Step-IsMove db db' sound (Step.assign locked i unit label now _) =
    assign_next_delivery_to_slot-IsMove locked i unit label now db sound
Step-IsMove db db' sound (Step.call_by_hand i j actor now d _ found may) =
    manual_call_delivery-IsMove db i j actor now d sound found may
Step-IsMove db db' sound (Step.receive actor now d e _ found _ s) =
    receive_called-IsMove actor now d e db sound found s
Step-IsMove db db' sound (Step.archive_ready ready _) =
    IsSafe-IsMove 0 db db' (delete_ready-IsSafe 0 db ready sound)
Step-IsMove db db' sound (Step.archive_completed job new_id now d r _) =
    IsSafe-IsMove job.cutoff db db'
      (count_archived-IsSafe job.cutoff new_id now db _ sound (completed_input-IsJobInput job d) r)
Step-IsMove db db' sound (Step.archive_cancelled job new_id now d r _) =
    IsSafe-IsMove job.cutoff db db' (
      count_archived-IsSafe job.cutoff new_id now db _ sound (cancelled_input-IsJobInput job now d)
        r)
Step-IsMove db db' sound (Step.set_slot_status i status _) = write_status-IsMove db i status sound
Step-IsMove db db' sound (Step.complete i actor now _) =
    complete_delivery-IsMove db i actor now sound
Step-IsMove db db' sound (Step.cancel i reason actor m now _) =
    cancel_delivery-IsMove db i reason actor m now sound
Step-IsMove db db' sound (Step.close args job now new_id i _) =
    let (sound', turn) = close_candidate_effect args job now new_id db sound i in
    record { sound = sound'; moves = turn-CanMove args job db i db' _ turn }

-- From a consistent yard with one history row per delivery, any sequence of the steps, in any order, leaves
-- such a yard, and takes the status of every delivery along moves of the abstract specification. The steps
-- are check-ins, assignments, completions, cancellations, changes of a slot's status, turns of the daily
-- close and of the archive job, calls by hand of a delivery that waits or is in the slot, and updates of
-- the start of a reception that find the delivery still called.
pub Reaches-CanReach :
    (a b : Db)
    → IsSound a
    → Reaches a b
    → IsSound b × ((j : ℕ) → CanReach (status_of j a) (status_of j b))
Reaches-CanReach a b sound (Reaches.here _) = (sound, (λ j. CanReach.at_once (status_of j a)))
Reaches-CanReach a c sound (Reaches.then_ _ b _ before step) =
    let (sound', reached) = Reaches-CanReach a b sound before in
    let move = Step-IsMove b c sound' step in
    (
      move.sound,
      (λ j.
          CanReach.after (status_of j a) (status_of j b) (status_of j c) (reached j)
            (move.moves j)),
    )

-- A final status stays, or the delivery is gone.
abbrev Lasts : Option DeliveryStatus → Option DeliveryStatus → Type 0
Lasts s t = (t ≡ s) ⊎ (t ≡ none)

CanMove-none : (t : Option DeliveryStatus) → CanMove none t → t ≡ none
CanMove-none _ (CanMove.stays _) = refl

CanMove-IsFinal : (s t : Option DeliveryStatus) → IsFinal s → CanMove s t → Lasts s t
CanMove-IsFinal _ _ IsFinal.done (CanMove.stays _) = inl refl
CanMove-IsFinal _ _ IsFinal.done (CanMove.is_completed _ may) = cc
CanMove-IsFinal _ _ IsFinal.done (CanMove.is_cancelled _ may) = cc
CanMove-IsFinal _ _ IsFinal.done (CanMove.ends _ ending) = inr refl
CanMove-IsFinal _ _ IsFinal.dropped (CanMove.stays _) = inl refl
CanMove-IsFinal _ _ IsFinal.dropped (CanMove.is_completed _ may) = cc
CanMove-IsFinal _ _ IsFinal.dropped (CanMove.is_cancelled _ may) = cc
CanMove-IsFinal _ _ IsFinal.dropped (CanMove.ends _ ending) = inr refl

CanReach-IsFinal : (s t : Option DeliveryStatus) → IsFinal s → CanReach s t → Lasts s t
CanReach-IsFinal s _ closed (CanReach.at_once _) = inl refl
CanReach-IsFinal s u closed (CanReach.after _ t _ before move) =
    elim (CanReach-IsFinal s t closed before) [
      | inl e ↦ CanMove-IsFinal s u closed (subst (λ z. CanMove z u) e move)
      | inr gone ↦ inr (CanMove-none u (subst (λ z. CanMove z u) gone move))
    ]

-- From a consistent yard with one history row per delivery, any sequence of the steps, in any order, leaves
-- a delivery that is completed or cancelled in that status, or without its row. The steps are check-ins,
-- assignments, completions, cancellations, changes of a slot's status, turns of the daily close and of the
-- archive job, calls by hand of a delivery that waits or is in the slot, and updates of the start of a
-- reception that find the delivery still called.
pub Reaches-IsFinal :
    (a b : Db) (j : ℕ)
    → IsSound a
    → Reaches a b
    → IsFinal (status_of j a)
    → (status_of j b ≡ status_of j a) ⊎ (status_of j b ≡ none)
Reaches-IsFinal a b j sound reach closed =
    CanReach-IsFinal (status_of j a) (status_of j b) closed ((Reaches-CanReach a b sound reach).1 j)
