-- ===== src/Consistency.antt =====
-- The invariant of the yard, and what keeps it when deliveries change and a slot is reconciled.
pub mod Enter
use delivery_driver_manageme.Base.{
  subst, ℕ, ◌≤◌, ◌==◌, ◌≡◌, refl, Bool, true, false, Option, none, some, List, All, All-map,
  All-both, Bool-cases, inl, inr, All-update_row, count_by, Unique, update_row, update_row-Unique,
  arith, ==_iff, sym,
}
use delivery_driver_manageme.Schema.{Slot, Delivery, TicketSequence, HistoryEvent}
use delivery_driver_manageme.Store.{
  Db, IsKeyed, delivery_id, slot_id, update_slot, update_delivery, add_event,
}
use delivery_driver_manageme.SlotState.{is_active_at, occupancy, settle, reconcile_slot_state}
use delivery_driver_manageme.SlotState.Laws.{
  IsSettled, settle-IsSettled, max_capacity-settle, id-settle, reconcile_slot_state-update,
}

-- No slot holds more active deliveries than it has room for.
abbrev pub IsWithin : Slot → Db → Type 0
IsWithin s db = occupancy s.id db ≤ s.max_capacity

-- Ids are unique, every slot's status agrees with its occupancy, and none is over its capacity.
pub record IsConsistent (db : Db) : Type 0 where
  pub keyed : IsKeyed db
  pub settled : All (λ s. IsSettled s db) db.slots
  pub within : All (λ s. IsWithin s db) db.slots

-- The same, but for the status of one slot.
pub record IsConsistentBut (i : ℕ) (db : Db) : Type 0 where
  pub keyed : IsKeyed db
  pub settled : All (λ s. (s.id == i) ≡ false → IsSettled s db) db.slots
  pub within : All (λ s. IsWithin s db) db.slots

reconcile-IsKeyed :
    (db : Db) (i : ℕ) (preserve : Bool)
    → IsKeyed db
    → IsKeyed (update_slot i (settle db preserve) db)
reconcile-IsKeyed db i preserve k = record {
  deliveries_unique = k.deliveries_unique;
  slots_unique =
      update_row-Unique slot_id (settle db preserve) (id-settle db preserve) i db.slots
        k.slots_unique;
  slots_named =
      All-update_row slot_id (λ s. (s.id == 0) ≡ false) (λ s. (s.id == 0) ≡ false) i
        (settle db preserve) (λ s _ h. rw (id-settle db preserve s) h) (λ s _ h. h) db.slots
        k.slots_named;
}

settle-IsWithin :
    (db : Db) (preserve : Bool) (s : Slot) → IsWithin s db → IsWithin (settle db preserve s) db
settle-IsWithin db preserve s h = rw (id-settle db preserve s, max_capacity-settle db preserve s) h

-- Reconciling the one slot whose status may be off restores the invariant.
pub reconcile-IsConsistent :
    (db : Db) (i : ℕ) (preserve : Bool)
    → IsConsistentBut i db
    → IsConsistent (reconcile_slot_state db i preserve).0
reconcile-IsConsistent db i preserve c = rw (reconcile_slot_state-update db i preserve) (record {
  keyed = reconcile-IsKeyed db i preserve c.keyed;
  settled =
      All-update_row slot_id (λ s. (s.id == i) ≡ false → IsSettled s db) (λ s. IsSettled s db) i
        (settle db preserve) (λ s _ _. settle-IsSettled db preserve s) (λ s ne h. h ne) db.slots
        c.settled;
  within =
      All-update_row slot_id (λ s. IsWithin s db) (λ s. IsWithin s db) i (settle db preserve)
        (λ s _ h. settle-IsWithin db preserve s h) (λ s _ h. h) db.slots c.within;
})

pub weaken : (db : Db) (i : ℕ) → IsConsistent db → IsConsistentBut i db
weaken db i c = record {
  keyed = c.keyed;
  settled =
      All-map (λ s. IsSettled s db) (λ s. (s.id == i) ≡ false → IsSettled s db) db.slots
        (λ s h _. h) c.settled;
  within = c.within;
}

-- Reconciling any slot keeps the invariant.
pub reconcile_any-IsConsistent :
    (db : Db) (i : ℕ) (preserve : Bool)
    → IsConsistent db
    → IsConsistent (reconcile_slot_state db i preserve).0
reconcile_any-IsConsistent db i preserve c = reconcile-IsConsistent db i preserve (weaken db i c)

-- A database with other deliveries, tickets and events, and the same slots.
abbrev pub rewrite : Db → List Delivery → List TicketSequence → List HistoryEvent → Db
rewrite db ds ts es = record db { deliveries = ds; ticket_sequences = ts; events = es }

module _ (db : Db) (ds : List Delivery) (ts : List TicketSequence) (es : List HistoryEvent)
    (c : IsConsistent db) (u : Unique delivery_id ds) where
  abbrev changed : Db
  changed = rewrite db ds ts es

  rewrite-IsKeyed : IsKeyed changed
  rewrite-IsKeyed = record {
    deliveries_unique = u;
    slots_unique = c.keyed.slots_unique;
    slots_named = c.keyed.slots_named;
  }

  -- The invariant stays when every occupancy does.
  pub same_occupancy-IsConsistent :
      ((j : ℕ) → count_by (is_active_at j) ds ≡ occupancy j db) → IsConsistent (rewrite db ds ts es)
  same_occupancy-IsConsistent same_at = record {
    keyed = rewrite-IsKeyed;
    settled =
        All-map (λ s. IsSettled s db) (λ s. IsSettled s changed) db.slots
          (λ s h.
            (λ e. omega (arith, h.0 e, same_at s.id), λ e. omega (arith, h.1 e, same_at s.id)))
          c.settled;
    within =
        All-map (λ s. IsWithin s db) (λ s. IsWithin s changed) db.slots
          (λ s h. omega (arith, same_at s.id)) c.within;
  }

  -- When one occupancy changes and still fits its slot, only that slot's status may be off.
  pub one_occupancy-IsConsistentBut :
      (i : ℕ)
      → ((j : ℕ) → (j == i) ≡ false → count_by (is_active_at j) ds ≡ occupancy j db)
      → All (λ s. s.id ≡ i → count_by (is_active_at i) ds ≤ s.max_capacity) db.slots
      → IsConsistentBut i (rewrite db ds ts es)
  one_occupancy-IsConsistentBut i same_at fits = record {
    keyed = rewrite-IsKeyed;
    settled =
        All-map (λ s. IsSettled s db) (λ s. (s.id == i) ≡ false → IsSettled s changed) db.slots
          (λ s h ne. (
            (λ e. omega (arith, h.0 e, same_at s.id ne)),
            (λ e. omega (arith, h.1 e, same_at s.id ne)),
          ))
          c.settled;
    within =
        All-both (λ s. IsWithin s db)
          (λ s. s.id ≡ i → count_by (is_active_at i) ds ≤ s.max_capacity) (λ s. IsWithin s changed)
          db.slots
          (λ s h fit. elim (Bool-cases (s.id == i)) [
            | inl here ↦ let e = (==_iff _ _).0 here in rw e (fit e)
            | inr there ↦ omega (arith, same_at s.id there)
          ])
          c.within fits;
  }

-- No slot has the empty id, so nothing is off there.
pub nowhere-IsConsistent : (db : Db) → IsConsistentBut 0 db → IsConsistent db
nowhere-IsConsistent db c = record {
  keyed = c.keyed;
  settled =
      All-both (λ s. (s.id == 0) ≡ false → IsSettled s db) (λ s. (s.id == 0) ≡ false)
        (λ s. IsSettled s db) db.slots (λ s h ne. h ne) c.settled c.keyed.slots_named;
  within = c.within;
}

-- The invariant reads the slots and the occupancies only.
pub same_slots-IsConsistentBut :
    (db db' : Db) (i : ℕ)
    → db'.slots ≡ db.slots
    → Unique delivery_id db'.deliveries
    → ((j : ℕ) → occupancy j db' ≡ occupancy j db)
    → IsConsistentBut i db
    → IsConsistentBut i db'
same_slots-IsConsistentBut db db' i e u same_at c = record {
  keyed = record {
    deliveries_unique = u;
    slots_unique = subst (Unique slot_id) (sym e) c.keyed.slots_unique;
    slots_named = subst (All (λ s. (s.id == 0) ≡ false)) (sym e) c.keyed.slots_named;
  };
  settled =
      All-map (λ s. (s.id == i) ≡ false → IsSettled s db)
        (λ s. (s.id == i) ≡ false → IsSettled s db') db'.slots
        (λ s h ne. (
          (λ e'. omega (arith, (h ne).0 e', same_at s.id)),
          (λ e'. omega (arith, (h ne).1 e', same_at s.id)),
        ))
        (subst (All (λ s. (s.id == i) ≡ false → IsSettled s db)) (sym e) c.settled);
  within =
      All-map (λ s. IsWithin s db) (λ s. IsWithin s db') db'.slots
        (λ s h. omega (arith, same_at s.id)) (subst (All (λ s. IsWithin s db)) (sym e) c.within);
}

pub same_slots-IsConsistent :
    (db db' : Db)
    → db'.slots ≡ db.slots
    → Unique delivery_id db'.deliveries
    → ((j : ℕ) → occupancy j db' ≡ occupancy j db)
    → IsConsistent db
    → IsConsistent db'
same_slots-IsConsistent db db' e u same_at c =
    nowhere-IsConsistent db' (same_slots-IsConsistentBut db db' 0 e u same_at (weaken db 0 c))
