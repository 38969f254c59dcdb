-- ===== src/Consistency/Enter.antt =====
-- A delivery that enters a slot with room keeps the yard consistent.
use delivery_driver_manageme.Base.{
  ◌∙◌, ℕ, ◌+◌, ◌≤◌, ◌<◌, ◌==◌, ◌≡◌, refl, sym, subst, Bool, true, false, bit, some, ◌∷◌, All,
  All-map, All-update_row, All-same_row, arith, count_by, count_by-update_row, update_row,
  update_row-Unique,
}
use delivery_driver_manageme.Schema.{Delivery, Slot, HistoryEvent}
use delivery_driver_manageme.Store.{
  Db, IsKeyed, delivery_id, slot_id, find_delivery, find_slot, update_delivery, update_slot,
  mark_used, add_event,
}
use delivery_driver_manageme.SlotState.{is_active_at, occupancy, settle, reconcile_slot_state}
use delivery_driver_manageme.SlotState.Laws.{
  IsSettled, id-settle, max_capacity-settle, reconcile_slot_state-update,
}
use delivery_driver_manageme.Consistency.{
  IsConsistent, IsConsistentBut, IsWithin, reconcile-IsConsistent, one_occupancy-IsConsistentBut,
  nowhere-IsConsistent, weaken,
}

-- A slot with this id has a place left.
abbrev pub HasRoom : ℕ → Db → Type 0
HasRoom i db = All (λ s. s.id ≡ i → occupancy i db < s.max_capacity) db.slots

pub HasRoom-found :
    (db : Db) (i : ℕ) (s : Slot)
    → IsKeyed db
    → find_slot i db ≡ some s
    → occupancy i db < s.max_capacity
    → HasRoom i db
HasRoom-found db i s k h room =
    All-map (λ y. y.id ≡ i → y ≡ s) _ db.slots
      (λ y same at. subst (λ z. occupancy i db < z.max_capacity) (sym (same at)) room)
      (All-same_row slot_id i db.slots s k.slots_unique h)

pub reconcile-HasRoom :
    (db : Db) (i j : ℕ) (preserve : Bool)
    → HasRoom i db
    → HasRoom i (reconcile_slot_state db j preserve).0
reconcile-HasRoom db i j preserve h = rw (reconcile_slot_state-update db j preserve) (
    All-update_row slot_id (λ s. s.id ≡ i → occupancy i db < s.max_capacity) _ j
      (settle db preserve)
      (λ s _ room at.
        rw (max_capacity-settle db preserve s) (room (sym (id-settle db preserve s) ∙ at)))
      (λ s _ room. room) db.slots h)

-- Writing the time of last use changes nothing that the invariant reads.
mark_used-IsConsistentBut :
    (db : Db) (j i now : ℕ)
    → IsConsistentBut j db
    → IsConsistentBut j (update_slot i (mark_used now) db)
mark_used-IsConsistentBut db j i now c = record {
  keyed = record {
    deliveries_unique = c.keyed.deliveries_unique;
    slots_unique =
        update_row-Unique slot_id (mark_used now) (λ s. refl) i db.slots c.keyed.slots_unique;
    slots_named =
        All-update_row slot_id (λ s. (s.id == 0) ≡ false) (λ s. (s.id == 0) ≡ false) i
          (mark_used now) (λ s _ h. h) (λ s _ h. h) db.slots c.keyed.slots_named;
  };
  settled =
      All-update_row slot_id (λ s. (s.id == j) ≡ false → IsSettled s db)
        (λ s. (s.id == j) ≡ false → IsSettled s db) i (mark_used now) (λ s _ h. h) (λ s _ h. h)
        db.slots c.settled;
  within =
      All-update_row slot_id (λ s. IsWithin s db) (λ s. IsWithin s db) i (mark_used now)
        (λ s _ h. h) (λ s _ h. h) db.slots c.within;
}

pub mark_used-IsConsistent :
    (db : Db) (i now : ℕ) → IsConsistent db → IsConsistent (update_slot i (mark_used now) db)
mark_used-IsConsistent db i now c =
    nowhere-IsConsistent _ (mark_used-IsConsistentBut db 0 i now (weaken db 0 c))

module _ (db : Db) (f : Delivery → Delivery) (e : HistoryEvent) (d : Delivery) (i now : ℕ)
    (keep : (x : Delivery) → (f x).id ≡ x.id) (quiet : (j : ℕ) → bit (is_active_at j d) ≡ 0)
    (target : (j : ℕ) → (j == i) ≡ false → bit (is_active_at j (f d)) ≡ 0) (c : IsConsistent db)
    (h : find_delivery d.id db ≡ some d) (room : HasRoom i db) where
  moved :
      (j : ℕ)
      → count_by (is_active_at j) (update_row delivery_id d.id f db.deliveries)
        ≡ occupancy j db + bit (is_active_at j (f d))
  moved j = omega (
    arith,
    count_by-update_row delivery_id (is_active_at j) d.id f db.deliveries d
        c.keyed.deliveries_unique h,
    quiet j,
  )

  bit-le_one : (b : Bool) → bit b ≤ 1
  bit-le_one true = omega arith
  bit-le_one false = omega arith

  entered : IsConsistentBut i (add_event e (update_delivery d.id f db))
  entered =
      one_occupancy-IsConsistentBut db (update_row delivery_id d.id f db.deliveries)
        db.ticket_sequences (e ∷ db.events) c
        (update_row-Unique delivery_id f keep d.id db.deliveries c.keyed.deliveries_unique) i
        (λ j ne. omega (arith, moved j, target j ne))
        (All-map (λ s. s.id ≡ i → occupancy i db < s.max_capacity) _ db.slots
          (λ s r at. omega (arith, r at, moved i, bit-le_one (is_active_at i (f d)))) room)

  -- The writes of a call: the delivery, its event, the slot's last use, and the reconciliation.
  pub enter-IsConsistent :
      IsConsistent
        (reconcile_slot_state
          (update_slot i (mark_used now) (add_event e (update_delivery d.id f db)))
          i
          true).0
  enter-IsConsistent = reconcile-IsConsistent _ i true (mark_used-IsConsistentBut _ i i now entered)
