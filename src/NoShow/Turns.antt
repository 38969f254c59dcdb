-- ===== src/NoShow/Turns.antt =====
-- A turn of the job that cancels no-shows, and what it needs to cancel a delivery.
use delivery_driver_manageme.Base.{
  ℕ, ◌+◌, ◌*◌, ◌≤◌, Option, none, true, ◌==◌, ◌≡◌, ◌⊎◌, inl, inr, refl, ap, ◌∙◌, Bool, false, bit,
  some, ◌∷◌, arith, All, All-map, Option-cases, Bool-cases, find_row-update_row_ne, includes,
  first_by, select, ltb, select-All, All-same_row, sort_by-All,
}
use delivery_driver_manageme.Schema.{
  Delivery, Actor, Message, DeliveryStatus, status_eq, event_eq, HistoryEvent, UnitConfig,
}
use delivery_driver_manageme.Store.{Db, delivery_id, find_delivery, config_of}
use delivery_driver_manageme.History.{
  get_last_call_history_event, is_call_of, call_event_types, history_event,
}
use delivery_driver_manageme.Consistency.{IsConsistent}
use delivery_driver_manageme.Lifecycle.{
  cancel_delivery, mark_cancelled, cancel_found, release_slot_for_delivery,
}
use delivery_driver_manageme.Lifecycle.Laws.{
  is_cancellable, cancel_delivery_done, events-reconcile_released, cancel_delivery_refused,
  deliveries-cancel_delivery,
}
use delivery_driver_manageme.Lifecycle.Consistency.{cancel_delivery-IsConsistent}
use delivery_driver_manageme.AutoAssign.{auto_assign_actor}
use delivery_driver_manageme.NoShow.{
  is_candidate, candidates, last_called_at, threshold_minutes, too_early, cancel_candidate,
}

-- Cancelling one delivery leaves the others alone.
find_delivery-cancel_delivery :
    (db : Db) (i j reason : ℕ) (actor : Actor) (m : Message) (now : ℕ)
    → (i == j) ≡ false
    → IsConsistent db
    → find_delivery j (cancel_delivery db i reason actor m now).0 ≡ find_delivery j db
unfolding cancel_delivery
find_delivery-cancel_delivery db i j reason actor m now ne c =
    elim (Option-cases (find_delivery i db)) [
      | inl e ↦ rw (e, cancel_delivery) refl
      | inr (d, e) ↦ elim (Bool-cases (is_cancellable d.status)) [
        | inl y ↦ rw (deliveries-cancel_delivery db i reason actor m now d c.keyed e y) (
            find_row-update_row_ne delivery_id (mark_cancelled reason now) (λ x. refl) i j
              db.deliveries ne)
        | inr n ↦ rw (cancel_delivery_refused db i reason actor m now d e n) refl
      ]
    ]

-- An event of another type is no call.
is_call_of-other :
    (i : ℕ) (e : HistoryEvent)
    → includes call_event_types e.event_type ≡ false
    → is_call_of i e ≡ false
unfolding is_call_of
is_call_of-other i e other = elim (Bool-cases (e.original_delivery_id == i)) [
  | inl y ↦ rw (y, other) refl
  | inr n ↦ rw n refl
]

calls-add :
    (i : ℕ) (e : HistoryEvent) (db db' : Db)
    → includes call_event_types e.event_type ≡ false
    → db'.events ≡ e ∷ db.events
    → get_last_call_history_event i db' ≡ get_last_call_history_event i db
unfolding get_last_call_history_event select
calls-add i e db db' other added =
    ap (λ es. first_by (λ a b. ltb b.occurred_at a.occurred_at) (select (is_call_of i) es)) added
    ∙ rw (is_call_of-other i e other) refl

-- Cancelling a delivery records no call.
calls-cancel_delivery :
    (db : Db) (j reason : ℕ) (actor : Actor) (m : Message) (now i : ℕ)
    → get_last_call_history_event i (cancel_delivery db j reason actor m now).0
      ≡ get_last_call_history_event i db
unfolding cancel_delivery cancel_found release_slot_for_delivery history_event
calls-cancel_delivery db j reason actor m now i = elim (Option-cases (find_delivery j db)) [
  | inl e ↦ rw (e, cancel_delivery) refl
  | inr (d, e) ↦ elim (Bool-cases (is_cancellable d.status)) [
    | inr n ↦ rw (cancel_delivery_refused db j reason actor m now d e n) refl
    | inl y ↦
        rw (cancel_delivery_done db j reason actor m now d e y)
          (calls-add i _ db _ refl (events-reconcile_released _ _))
  ]
]

pub bit-le_one : (b : Bool) → bit b ≤ 1
bit-le_one b = ground arith

-- The time of the last call: that of the event, or else that of the row.
abbrev pub IsLastCall : Delivery → ℕ → Option HistoryEvent → Type 0
IsLastCall d last event =
    ((event ≡ none) × (d.called_time ≡ some last))
    ⊎ ((e : HistoryEvent) × (event ≡ some e) × (e.occurred_at ≡ last))

pub last_called_at-cases :
    (db : Db) (d : Delivery) (last : ℕ)
    → last_called_at db d ≡ some last
    → IsLastCall d last (get_last_call_history_event d.id db)
unfolding last_called_at
last_called_at-cases db d last h = elim (Option-cases (get_last_call_history_event d.id db)) [
  | inl e ↦ inl (e, rw e at h)
  | inr (x, e) ↦ let h' : some x.occurred_at ≡ some last = rw e at h in inr (x, e, cc h')
]

pub threshold_minutes-found :
    (db : Db) (d : Delivery) (u : UnitConfig)
    → config_of d.unit_config_id db ≡ some u
    → threshold_minutes db d ≡ u.auto_cancel_called_after_minutes
unfolding threshold_minutes
threshold_minutes-found db d u e = rw e refl

pub elapsed_minutes :
    (now last minutes : ℕ) → too_early now last minutes ≡ false → last + minutes * 60000 ≤ now
unfolding too_early
elapsed_minutes now last minutes h = ground (arith, h)

-- A delivery that the job may cancel at a time: it is called, has a time of its call, and its unit cancels
-- no-shows and allows so many minutes since the last call.
pub record IsNoShow (db : Db) (d : Delivery) (last now : ℕ) : Type 0 where
  pub called : d.status ≡ DeliveryStatus.called
  pub called_at : (t : ℕ) × (d.called_time ≡ some t)
  pub unit : UnitConfig
  pub unit_found : config_of d.unit_config_id db ≡ some unit
  pub enabled : unit.auto_cancel_called_enabled ≡ true
  pub last_call : IsLastCall d last (get_last_call_history_event d.id db)
  pub elapsed : last + unit.auto_cancel_called_after_minutes * 60000 ≤ now

-- Other transactions that keep the yard consistent and leave one delivery and its calls alone.
pub record IsQuiet (i : ℕ) (others : ℕ → Db → Db) : Type 0 where
  pub consistent : (n : ℕ) (db : Db) → IsConsistent db → IsConsistent (others n db)
  pub row : (n : ℕ) (db : Db) → find_delivery i (others n db) ≡ find_delivery i db
  pub calls :
      (n : ℕ) (db : Db)
      → get_last_call_history_event i (others n db) ≡ get_last_call_history_event i db

-- The candidates with the id of a delivery are that delivery as the query read it.
pub candidates-own :
    (db : Db) (d : Delivery)
    → IsConsistent db
    → find_delivery d.id db ≡ some d
    → All (λ (x : Delivery). (x.id ≡ d.id → x ≡ d) × (is_candidate db x ≡ true)) (candidates db)
unfolding candidates
candidates-own db d c h =
    sort_by-All _ (λ x. (x.id ≡ d.id → x ≡ d) × (is_candidate db x ≡ true)) _
      (select-All (λ x. (x.id ≡ d.id → x ≡ d) × (is_candidate db x ≡ true)) (is_candidate db)
        db.deliveries
        (All-map (λ x. x.id ≡ d.id → x ≡ d) _ db.deliveries (λ x own t. (own, t))
          (All-same_row delivery_id d.id db.deliveries d c.keyed.deliveries_unique h)))

module _ (clock : ℕ → ℕ) (label reason : ℕ) where
  abbrev cancelled_by_job : ℕ → Db → Delivery → Db
  cancelled_by_job k db d =
      (cancel_delivery db d.id reason (auto_assign_actor label) (Message.other reason) (clock k)).0

  -- A turn of the loop cancels a delivery only once its last call is old enough.
  pub cancel_candidate-cases :
      (read : Db) (k : ℕ) (db : Db) (d : Delivery)
      → let (db', done) = cancel_candidate clock label reason read k db d in
        ((db' ≡ db) × (done ≡ false))
        ⊎ ((last : ℕ) × (last_called_at db d ≡ some last)
            × (too_early (clock k) last (threshold_minutes read d) ≡ false)
            × (db' ≡ cancelled_by_job k db d))
  unfolding cancel_candidate
  cancel_candidate-cases read k db d = elim (Option-cases (last_called_at db d)) [
    | inl e ↦ inl (rw (e, cancel_candidate) refl, rw (e, cancel_candidate) refl)
    | inr (last, e) ↦ elim (Bool-cases (too_early (clock k) last (threshold_minutes read d))) [
      | inl t ↦ inl (rw (e, cancel_candidate) (rw t refl), rw (e, cancel_candidate) (rw t refl))
      | inr t ↦ inr (last, e, t, rw (e, cancel_candidate) (rw t refl))
    ]
  ]

  pub cancel_candidate-IsConsistent :
      (read : Db) (k : ℕ) (db : Db) (d : Delivery)
      → IsConsistent db
      → IsConsistent (cancel_candidate clock label reason read k db d).0
  cancel_candidate-IsConsistent read k db d c = elim (cancel_candidate-cases read k db d) [
    | inl (e, _) ↦ rw e c
    | inr (_, _, _, e) ↦ rw e (cancel_delivery-IsConsistent db d.id reason _ _ (clock k) c)
  ]

  pub find_delivery-cancel_candidate :
      (read : Db) (k : ℕ) (db : Db) (d : Delivery) (j : ℕ)
      → (d.id == j) ≡ false
      → IsConsistent db
      → find_delivery j (cancel_candidate clock label reason read k db d).0 ≡ find_delivery j db
  find_delivery-cancel_candidate read k db d j ne c = elim (cancel_candidate-cases read k db d) [
    | inl (e, _) ↦ rw e refl
    | inr (_, _, _, e) ↦ rw e (find_delivery-cancel_delivery db d.id j reason _ _ (clock k) ne c)
  ]

  pub calls-cancel_candidate :
      (read : Db) (k : ℕ) (db : Db) (d : Delivery) (i : ℕ)
      → get_last_call_history_event i (cancel_candidate clock label reason read k db d).0
        ≡ get_last_call_history_event i db
  calls-cancel_candidate read k db d i = elim (cancel_candidate-cases read k db d) [
    | inl (e, _) ↦ rw e refl
    | inr (_, _, _, e) ↦ rw e (calls-cancel_delivery db d.id reason _ _ (clock k) i)
  ]
