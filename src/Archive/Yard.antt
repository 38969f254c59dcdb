-- ===== src/Archive/Yard.antt =====
-- Archiving a delivery that holds no place keeps the yard consistent.
use delivery_driver_manageme.Base.{
  ℕ, ◌==◌, ◌≡◌, refl, ap, sym, subst, true, false, bit, Option, none, some, inl, inr, arith,
  Bool-cases, count_by, Unique, or_else, ==_iff, count_by-delete_row, delete_row-Unique, find_row,
  find_row-update_row_self, ◌∙◌,
}
use delivery_driver_manageme.Schema.{Delivery, Slot}
use delivery_driver_manageme.Store.{Db, find_delivery, delivery_id, find_slot, slot_id}
use delivery_driver_manageme.SlotState.{
  is_active_at, occupancy, reconcile_slot_state, is_manual_slot_status, settle,
}
use delivery_driver_manageme.SlotState.Laws.{reconcile_slot_state-update, id-settle}
use delivery_driver_manageme.History.{DeliveryScope}
use delivery_driver_manageme.Consistency.{
  IsConsistent, IsConsistentBut, reconcile-IsConsistent, nowhere-IsConsistent, weaken,
  same_slots-IsConsistent, same_slots-IsConsistentBut,
}
use delivery_driver_manageme.Archive.{
  ArchiveInput, reconcile_forced, delete_delivery, remove_operational_row, write_history,
  archive_found,
}
use delivery_driver_manageme.Archive.Effects.{archive_found-outcome}
use delivery_driver_manageme.Archive.Recording.{write_history-yard}

-- The slot that a delivery names, or the empty id.
abbrev pub named_slot : Delivery → ℕ
named_slot d = or_else d.assigned_slot_id 0

same_yard-IsConsistentBut :
    (db db' : Db) (i : ℕ)
    → db'.deliveries ≡ db.deliveries
    → db'.slots ≡ db.slots
    → IsConsistentBut i db
    → IsConsistentBut i db'
same_yard-IsConsistentBut db db' i ds ss c =
    same_slots-IsConsistentBut db db' i ss
      (subst (Unique delivery_id) (sym ds) c.keyed.deliveries_unique)
      (λ j. ap (count_by (is_active_at j)) ds) c

reconcile_forced-IsConsistent :
    (db : Db) (place : Option ℕ)
    → IsConsistentBut (or_else place 0) db
    → IsConsistent (reconcile_forced place db)
unfolding reconcile_forced
reconcile_forced-IsConsistent db none c = nowhere-IsConsistent db c
reconcile_forced-IsConsistent db (some i) c = elim (Bool-cases (i == 0)) [
  | inl empty ↦
      rw empty
        (nowhere-IsConsistent db (subst (λ z. IsConsistentBut z db) ((==_iff i 0).0 empty) c))
  | inr named ↦ rw named (reconcile-IsConsistent db i false c)
]

reconcile_forced-deliveries :
    (place : Option ℕ) (db : Db) → (reconcile_forced place db).deliveries ≡ db.deliveries
unfolding reconcile_forced
reconcile_forced-deliveries none db = refl
reconcile_forced-deliveries (some i) db = elim (Bool-cases (i == 0)) [
  | inl empty ↦ rw empty refl
  | inr named ↦ rw (named, reconcile_slot_state-update db i false) refl
]

-- A delivery that holds no place anywhere.
abbrev pub IsInactive : Delivery → Type 0
IsInactive d = (j : ℕ) → bit (is_active_at j d) ≡ 0

delete_delivery-IsConsistent :
    (db : Db) (d : Delivery)
    → IsInactive d
    → find_delivery d.id db ≡ some d
    → IsConsistent db
    → IsConsistent (delete_delivery d.id db)
delete_delivery-IsConsistent db d quiet found c =
    same_slots-IsConsistent db (delete_delivery d.id db) refl
      (delete_row-Unique delivery_id d.id db.deliveries c.keyed.deliveries_unique)
      (λ j. omega (
        arith,
        count_by-delete_row delivery_id (is_active_at j) d.id db.deliveries d
            c.keyed.deliveries_unique found,
        quiet j,
      ))
      c

module _ (new_id : ℕ) (db : Db) (d : Delivery) (input : ArchiveInput) (now : ℕ)
    (quiet : IsInactive d) (found : find_delivery d.id db ≡ some d) where
  abbrev linked : Db
  linked = (write_history new_id db d input now).0

  yard : (linked.deliveries ≡ db.deliveries) × (linked.slots ≡ db.slots)
  yard = write_history-yard new_id db d input now

  remove_operational_row-IsConsistent :
      (scope : DeliveryScope) (history_id : ℕ)
      → IsConsistentBut (named_slot d) db
      → IsConsistent (remove_operational_row d input now scope history_id linked)
  unfolding remove_operational_row
  remove_operational_row-IsConsistent scope history_id c =
      delete_delivery-IsConsistent _ d quiet
        (ap (find_row delivery_id d.id) (reconcile_forced-deliveries d.assigned_slot_id _ ∙ yard.0)
          ∙ found)
        (reconcile_forced-IsConsistent _ d.assigned_slot_id
          (same_yard-IsConsistentBut db _ (named_slot d) yard.0 yard.1 c))

  -- The deletion also settles the delivery's slot, so its status may have been off before.
  pub archive_deleted-IsConsistent :
      input.delete_operational_row ≡ true
      → IsConsistentBut (named_slot d) db
      → IsConsistent (archive_found new_id db d input now).0
  archive_deleted-IsConsistent delete c =
      subst (λ z. IsConsistent z.0) (sym (archive_found-outcome new_id db d input now true delete))
        (remove_operational_row-IsConsistent _ _ c)

  -- Archiving a stored delivery that holds no place, with or without its deletion, keeps the yard
  -- consistent.
  pub archive_found-IsConsistent :
      IsConsistent db → IsConsistent (archive_found new_id db d input now).0
  archive_found-IsConsistent c = elim (Bool-cases input.delete_operational_row) [
    | inl delete ↦ archive_deleted-IsConsistent delete (weaken db (named_slot d) c)
    | inr keep ↦
        subst (λ z. IsConsistent z.0) (sym (archive_found-outcome new_id db d input now false keep))
          (nowhere-IsConsistent linked
            (same_yard-IsConsistentBut db linked 0 yard.0 yard.1 (weaken db 0 c)))
  ]

settle-unmanual : (db : Db) (s : Slot) → is_manual_slot_status (settle db false s).status ≡ false
unfolding settle is_manual_slot_status delivery_driver_manageme.SlotState.next_status
settle-unmanual db s = ground arith

reconcile_forced-unmanual :
    (place : Option ℕ) (db : Db) (i : ℕ) (s : Slot)
    → place ≡ some i
    → (i == 0) ≡ false
    → find_slot i db ≡ some s
    → (t : Slot) × (find_slot i (reconcile_forced place db) ≡ some t)
      × (is_manual_slot_status t.status ≡ false)
unfolding reconcile_forced
reconcile_forced-unmanual place db i s at named found = rw at (
    rw (named, reconcile_slot_state-update db i false)
      (
        settle db false s,
        find_row-update_row_self slot_id (settle db false) (id-settle db false) i db.slots s found,
        settle-unmanual db s,
      ))

-- When the delivery that is deleted names a slot, no manual status is left there: a slot in maintenance or
-- reserved is open again, or shown as occupied.
pub archive_deleted-unmanual :
    (new_id now : ℕ) (db : Db) (d : Delivery) (input : ArchiveInput) (i : ℕ) (s : Slot)
    → input.delete_operational_row ≡ true
    → d.assigned_slot_id ≡ some i
    → (i == 0) ≡ false
    → find_slot i db ≡ some s
    → (t : Slot) × (find_slot i (archive_found new_id db d input now).0 ≡ some t)
      × (is_manual_slot_status t.status ≡ false)
unfolding remove_operational_row
archive_deleted-unmanual new_id now db d input i s delete at named found =
    subst (λ z. (t : Slot) × (find_slot i z.0 ≡ some t) × (is_manual_slot_status t.status ≡ false))
      (sym (archive_found-outcome new_id db d input now true delete))
      (reconcile_forced-unmanual d.assigned_slot_id _ i s at named
        (ap (find_row slot_id i) (write_history-yard new_id db d input now).1 ∙ found))
