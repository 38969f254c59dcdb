-- ===== src/ArchiveJob/Turns.antt =====
-- One write of the job that archives: nothing is lost without a history row.
use delivery_driver_manageme.Base.{
  ℕ, ◌≤◌, ◌≡◌, refl, ap, sym, subst, ◌∙◌, ◌⊎◌, Bool, true, false, not, ◌===◌, none, some, List, inl,
  inr, arith, Bool-cases, Option-cases, key-find_row, select-Unique, find_row-select_kept,
  find_row-select_absent, find_row-select_gone, count_by-select_quiet,
}
use delivery_driver_manageme.Schema.{
  DeliveryStatus, status_eq, FinalStatus, final_eq, Delivery, DeliveryHistory,
}
use delivery_driver_manageme.Store.{Db, delivery_id, find_delivery}
use delivery_driver_manageme.SlotState.{is_active_at}
use delivery_driver_manageme.Consistency.{same_slots-IsConsistent}
use delivery_driver_manageme.Archive.{find_history}
use delivery_driver_manageme.Archive.Yard.{IsInactive}
use delivery_driver_manageme.CloseDay.Laws.{IsSound}
use delivery_driver_manageme.ArchiveJob.{is_ready, is_deleted, delete_ready}

-- What the job may delete, and the final status that its history row has then.
pub data IsArchivable (cutoff : ℕ) (d : Delivery) : FinalStatus → Type 0 where
  was_completed : d.status ≡ DeliveryStatus.completed → IsArchivable cutoff d FinalStatus.completed
  was_cancelled :
      d.status ≡ DeliveryStatus.cancelled
      → d.updated_at ≤ cutoff
      → IsArchivable cutoff d FinalStatus.cancelled

-- A delivery and its history stay, or the delivery is gone and its history row tells how it ended.
abbrev pub Fate : ℕ → Db → Db → ℕ → Type 0
Fate cutoff db db' j =
    ((find_delivery j db' ≡ find_delivery j db) × (find_history j db' ≡ find_history j db))
    ⊎ ((d : Delivery) × (h : DeliveryHistory) × (find_delivery j db ≡ some d)
        × IsArchivable cutoff d h.final_status
        × (find_delivery j db' ≡ none)
        × (find_history j db' ≡ some h))

pub record IsSafe (cutoff : ℕ) (db db' : Db) : Type 0 where
  pub sound : IsSound db'
  pub fates : (j : ℕ) → Fate cutoff db db' j

pub nothing-IsSafe : (cutoff : ℕ) (db : Db) → IsSound db → IsSafe cutoff db db
nothing-IsSafe cutoff db sound = record { sound = sound; fates = λ j. inl (refl, refl) }

then-Fate :
    (cutoff : ℕ) (a b c : Db) (j : ℕ) → Fate cutoff a b j → Fate cutoff b c j → Fate cutoff a c j
then-Fate cutoff a b c j (inl (same, same')) (inl (next, next')) = inl (next ∙ same, next' ∙ same')
then-Fate cutoff a b c j (inl (same, same')) (inr (d, h, found, due, gone, kept)) =
    inr (d, h, sym same ∙ found, due, gone, kept)
then-Fate cutoff a b c j (inr (d, h, found, due, gone, kept)) (inl (next, next')) =
    inr (d, h, found, due, next ∙ gone, next' ∙ kept)
then-Fate cutoff a b c j (inr (d, h, found, due, gone, kept))
      (inr (x, g, found', _, gone', kept')) =
    cc (gone, found')

pub then-IsSafe :
    (cutoff : ℕ) (a b c : Db) → IsSafe cutoff a b → IsSafe cutoff b c → IsSafe cutoff a c
then-IsSafe cutoff a b c first second = record {
  sound = second.sound;
  fates = λ j. then-Fate cutoff a b c j (first.fates j) (second.fates j);
}

pub IsArchivable-IsInactive :
    (cutoff : ℕ) (d : Delivery) (s : FinalStatus) → IsArchivable cutoff d s → IsInactive d
unfolding is_active_at
IsArchivable-IsInactive cutoff d _ (IsArchivable.was_completed e) j = ground (arith, e)
IsArchivable-IsInactive cutoff d _ (IsArchivable.was_cancelled e _) j = ground (arith, e)

ready_row :
    (db : Db) (d : Delivery)
    → is_ready db d ≡ true
    → (h : DeliveryHistory) × (find_history d.id db ≡ some h)
      × (h.final_status ≡ FinalStatus.completed)
unfolding is_ready
ready_row db d ready = elim (Option-cases (find_history d.id db)) [
  | inl gone ↦ let h : false ≡ true = rw gone at ready in cc
  | inr (h, found) ↦
      (h, found, (final_eq.eq_iff h.final_status FinalStatus.completed).0 (rw found at ready))
]

module _ (cutoff : ℕ) (db : Db) (ready : List Delivery) (sound : IsSound db) where
  abbrev stays : Delivery → Bool
  stays d = not (is_deleted db ready d)

  deleted-IsInactive : (d : Delivery) → stays d ≡ false → IsInactive d
  unfolding is_deleted is_active_at
  deleted-IsInactive d gone j =
      let e : (d.status === DeliveryStatus.completed) ≡ true = ground (arith, gone) in
      ground (arith, (status_eq.eq_iff d.status DeliveryStatus.completed).0 e)

  delete_ready-IsSound : IsSound (delete_ready ready db)
  unfolding delete_ready
  delete_ready-IsSound = record {
    consistent =
        same_slots-IsConsistent db (delete_ready ready db) refl
          (select-Unique delivery_id stays db.deliveries sound.consistent.keyed.deliveries_unique)
          (λ j.
            count_by-select_quiet delivery_id (is_active_at j) stays db.deliveries
              (λ d gone. deleted-IsInactive d gone j))
          sound.consistent;
    once = sound.once;
  }

  delete_ready-Fate : (j : ℕ) → Fate cutoff db (delete_ready ready db) j
  unfolding delete_ready is_deleted
  delete_ready-Fate j = elim (Option-cases (find_delivery j db)) [
    | inl none_there ↦
        inl (
          find_row-select_absent delivery_id stays j db.deliveries none_there ∙ sym none_there,
          refl,
        )
    | inr (d, found) ↦ elim (Bool-cases (is_deleted db ready d)) [
      | inr keeps ↦ inl (
        find_row-select_kept delivery_id stays j db.deliveries d found (ap not keeps) ∙ sym found,
        refl,
      )
      | inl goes ↦
          let (h, row, final) = ready_row db d (ground (arith, goes)) in
          let own = key-find_row delivery_id j db.deliveries d found in
          let completed : (d.status === DeliveryStatus.completed) ≡ true = ground (arith, goes) in
          inr (
            d,
            h,
            found,
            subst (IsArchivable cutoff d) (sym final) (
                IsArchivable.was_completed
                  ((status_eq.eq_iff d.status DeliveryStatus.completed).0 completed)),
            find_row-select_gone delivery_id stays j db.deliveries d
                sound.consistent.keyed.deliveries_unique found (ap not goes),
            subst (λ k. find_history k db ≡ some h) own row,
          )
    ]
  ]

  pub delete_ready-IsSafe : IsSafe cutoff db (delete_ready ready db)
  delete_ready-IsSafe = record { sound = delete_ready-IsSound; fates = delete_ready-Fate }
