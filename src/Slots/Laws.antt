-- ===== src/Slots/Laws.antt =====
-- What an operator's change of a slot's status does.
use delivery_driver_manageme.Base.{
  ℕ, ◌≤◌, ◌<◌, ◌==◌, ◌≡◌, refl, sym, ap, subst, ◌∙◌, ◌⊎◌, inl, inr, Bool, true, false, Option, some,
  arith, All-update_row, update_row-Unique, Bool-cases, find_row-update_row_self, ==_iff, ok,
}
use delivery_driver_manageme.Schema.{SlotStatus, Slot}
use delivery_driver_manageme.Store.{Db, slot_id, find_slot, update_slot}
use delivery_driver_manageme.SlotState.{
  occupancy, SlotStateSnapshot, is_manual_slot_status, settle, active_delivery_id,
  reconcile_slot_state,
}
use delivery_driver_manageme.SlotState.Laws.{IsSettled, reconcile_slot_state-update, id-settle}
use delivery_driver_manageme.Consistency.{
  IsConsistent, IsConsistentBut, IsWithin, reconcile-IsConsistent, reconcile_any-IsConsistent,
}
use delivery_driver_manageme.Permissions.{PermissionProfile}
use delivery_driver_manageme.Slots.{
  assert_slot_operation_access, set_status, write_status, update_slot_status, answer,
}

set_status-IsConsistentBut :
    (db : Db) (i : ℕ) (status : SlotStatus)
    → IsConsistent db
    → IsConsistentBut i (update_slot i (set_status status) db)
set_status-IsConsistentBut db i status c = record {
  keyed = record {
    deliveries_unique = c.keyed.deliveries_unique;
    slots_unique =
        update_row-Unique slot_id (set_status status) (λ s. refl) i db.slots c.keyed.slots_unique;
    slots_named =
        All-update_row slot_id (λ s. (s.id == 0) ≡ false) (λ s. (s.id == 0) ≡ false) i
          (set_status status) (λ s _ h. h) (λ s _ h. h) db.slots c.keyed.slots_named;
  };
  settled =
      All-update_row slot_id (λ s. IsSettled s db) (λ s. (s.id == i) ≡ false → IsSettled s db) i
        (set_status status) (λ s e h ne. cc (ne, (==_iff s.id i).1 e)) (λ s _ h _. h) db.slots
        c.settled;
  within =
      All-update_row slot_id (λ s. IsWithin s db) (λ s. IsWithin s db) i (set_status status)
        (λ s _ h. h) (λ s _ h. h) db.slots c.within;
}

pub write_status-IsConsistent :
    (db : Db) (i : ℕ) (status : SlotStatus)
    → IsConsistent db
    → IsConsistent (write_status db i status).0
unfolding write_status
write_status-IsConsistent db i status c = elim (Bool-cases (is_manual_slot_status status)) [
  | inl m ↦
      rw (m, write_status)
        (reconcile-IsConsistent _ i true (set_status-IsConsistentBut db i status c))
  | inr m ↦ rw (m, write_status) (reconcile_any-IsConsistent db i false c)
]

abbrev snapshot_of : Db → Bool → Slot → SlotStateSnapshot
snapshot_of db preserve s = record {
  slot = settle db preserve s;
  active_count = occupancy s.id db;
  active_delivery_id = active_delivery_id s.id db;
  manual_status = is_manual_slot_status s.status;
}

reconcile_slot_state-found :
    (db : Db) (i : ℕ) (preserve : Bool) (s : Slot)
    → find_slot i db ≡ some s
    → (reconcile_slot_state db i preserve).1 ≡ some (snapshot_of db preserve s)
unfolding reconcile_slot_state
reconcile_slot_state-found db i preserve s h = rw (h, reconcile_slot_state) refl

settle-forced :
    (db : Db) (s : Slot)
    → ((settle db false s).status ≡ SlotStatus.occupied × (s.max_capacity ≤ occupancy s.id db))
      ⊎ ((settle db false s).status ≡ SlotStatus.available × (occupancy s.id db < s.max_capacity))
unfolding settle delivery_driver_manageme.SlotState.next_status
settle-forced db s = ground arith

settle-held :
    (db : Db) (status : SlotStatus) (s : Slot)
    → is_manual_slot_status status ≡ true
    → (settle db true (set_status status s)).status ≡ status
unfolding settle
settle-held db status s m = rw m refl

-- The status of a slot after the change: as asked for when an operator holds the slot, and else full or
-- not.
abbrev pub Answers : Db → SlotStatus → Slot → Slot → Type 0
Answers db status s t =
    ((is_manual_slot_status status ≡ true) × (t.status ≡ status))
    ⊎ ((is_manual_slot_status status ≡ false)
        × (t.status ≡ SlotStatus.occupied)
        × (s.max_capacity ≤ occupancy s.id db))
    ⊎ ((is_manual_slot_status status ≡ false)
        × (t.status ≡ SlotStatus.available)
        × (occupancy s.id db < s.max_capacity))

stored-reconcile :
    (db : Db) (i : ℕ) (preserve : Bool) (s : Slot)
    → find_slot i db ≡ some s
    → find_slot i (reconcile_slot_state db i preserve).0 ≡ some (settle db preserve s)
stored-reconcile db i preserve s h =
    ap (find_slot i) (reconcile_slot_state-update db i preserve)
    ∙ find_row-update_row_self slot_id (settle db preserve) (id-settle db preserve) i db.slots s h

write_status-Answers :
    (db : Db) (i : ℕ) (status : SlotStatus) (s : Slot)
    → find_slot i db ≡ some s
    → (snapshot : SlotStateSnapshot) × ((write_status db i status).1 ≡ some snapshot)
      × (find_slot i (write_status db i status).0 ≡ some snapshot.slot)
      × Answers db status s snapshot.slot
unfolding write_status
write_status-Answers db i status s h = elim (Bool-cases (is_manual_slot_status status)) [
  | inl m ↦
      let held = update_slot i (set_status status) db in
      let writes : write_status db i status ≡ reconcile_slot_state held i true =
        rw (m, write_status) refl in
      let found = find_row-update_row_self slot_id (set_status status) (λ x. refl) i db.slots s h in
      (
        snapshot_of held true (set_status status s),
        ap (λ x. x.1) writes ∙ reconcile_slot_state-found held i true (set_status status s) found,
        ap (λ x. find_slot i x.0) writes ∙ stored-reconcile held i true (set_status status s) found,
        inl (m, settle-held held status s m),
      )
  | inr m ↦ (
    snapshot_of db false s,
    rw (m, write_status) (reconcile_slot_state-found db i false s h),
    rw (m, write_status) (stored-reconcile db i false s h),
    elim (settle-forced db s) [
      | inl full ↦ inr (inl (m, full.0, full.1))
      | inr room ↦ inr (inr (m, room.0, room.1))
    ],
  )
]

answer-some :
    (x : Db × Option SlotStateSnapshot) (snapshot : SlotStateSnapshot)
    → x.1 ≡ some snapshot
    → answer x ≡ ok (x.0, snapshot)
answer-some (db, o) snapshot e = subst (λ y. answer (db, y) ≡ ok (db, snapshot)) (sym e) refl

-- In a consistent yard, a user who may operate the slot gets the slot as it is stored then when setting its
-- status: a manual status is stored as asked, any other request stores the slot as occupied exactly when it
-- is full; the yard stays consistent.
pub update_slot_status_effect :
    (db : Db) (i : ℕ) (status : SlotStatus) (user : Option PermissionProfile) (s : Slot)
    → IsConsistent db
    → find_slot i db ≡ some s
    → assert_slot_operation_access user s db ≡ ok tt
    → (db' : Db) × (snapshot : SlotStateSnapshot) × (update_slot_status db i status user
        ≡ ok (db', snapshot))
      × IsConsistent db'
      × (find_slot i db' ≡ some snapshot.slot)
      × Answers db status s snapshot.slot
unfolding update_slot_status
update_slot_status_effect db i status user s c h access =
    let (snapshot, e, stored, a) = write_status-Answers db i status s h in
    (
      (write_status db i status).0,
      snapshot,
      rw (h, update_slot_status) (rw access (answer-some (write_status db i status) snapshot e)),
      write_status-IsConsistent db i status c,
      stored,
      a,
    )
