-- ===== src/SlotState/Laws.antt =====
-- What a reconciliation of a slot does.
use delivery_driver_manageme.Base.{
  count_by-select, ◌⊎◌, ==_iff, first_by-none, first_by, select, Memᴰ-select, Memᴰ-first_by,
  find_row_of_mem, update_row-none, ◌&&◌, ℕ, ◌≤◌, ◌<◌, ◌==◌, ◌≡◌, refl, Bool, true, false, none,
  some, arith, Option-cases, Bool-cases, inl, inr, find_row-update_row_self, find_row-update_row_ne,
  key-find_row,
}
use delivery_driver_manageme.Schema.{occupied, available, Slot, Delivery}
use delivery_driver_manageme.Store.{
  delivery_id, find_delivery, update_slot, Db, find_slot, slot_id, IsKeyed,
}
use delivery_driver_manageme.SlotState.{
  is_newer, settle, is_active_at, is_manual_slot_status, occupancy, active_delivery_id, next_status,
  reconcile_slot_state,
}

-- `occupied` exactly when the slot is full, unless an operator holds it in a manual status.
abbrev pub IsSettled : Slot → Db → Type 0
IsSettled s db =
    (s.status ≡ occupied → s.max_capacity ≤ occupancy s.id db)
    × (s.status ≡ available → occupancy s.id db < s.max_capacity)

-- The slot shows no delivery when none is active at it, and else one of them.
abbrev pub HasCurrent : Slot → Db → Type 0
HasCurrent s db =
    ((s.current_delivery_id ≡ none) × (occupancy s.id db ≡ 0))
    ⊎ ((d : Delivery) × (s.current_delivery_id ≡ some d.id)
        × (find_delivery d.id db ≡ some d)
        × (is_active_at s.id d ≡ true))

-- A manual status is neither of the two, so the claim holds of it too.
pub settle-IsSettled : (db : Db) (preserve : Bool) (s : Slot) → IsSettled (settle db preserve s) db
unfolding settle next_status is_manual_slot_status
settle-IsSettled db preserve s = ground arith

pub max_capacity-settle :
    (db : Db) (preserve : Bool) (s : Slot) → (settle db preserve s).max_capacity ≡ s.max_capacity
unfolding settle
max_capacity-settle db preserve s = ground arith

pub id-settle : (db : Db) (preserve : Bool) (s : Slot) → (settle db preserve s).id ≡ s.id
unfolding settle
id-settle db preserve s = ground arith

-- Both reads of the slot are of the row with its id, so the reconciliation is one update.
pub reconcile_slot_state-update :
    (db : Db) (i : ℕ) (preserve : Bool)
    → (reconcile_slot_state db i preserve).0 ≡ update_slot i (settle db preserve) db
unfolding reconcile_slot_state
reconcile_slot_state-update db i preserve = elim (Option-cases (find_slot i db)) [
  | inl gone ↦
      rw (gone, reconcile_slot_state)
        (rw (update_row-none slot_id i (settle db preserve) db.slots gone))
  | inr (s, e) ↦ rw (e, reconcile_slot_state, key-find_row slot_id i db.slots s e) refl
]

active_delivery_id-cases :
    (db : Db) (i : ℕ)
    → IsKeyed db
    → ((active_delivery_id i db ≡ none) × (occupancy i db ≡ 0))
      ⊎ ((d : Delivery) × (active_delivery_id i db ≡ some d.id)
          × (find_delivery d.id db ≡ some d)
          × (is_active_at i d ≡ true))
unfolding active_delivery_id
active_delivery_id-cases db i k =
    elim (Option-cases (first_by is_newer (select (is_active_at i) db.deliveries))) [
      | inl e ↦ inl (
        rw (e, active_delivery_id) refl,
        rw (← count_by-select (is_active_at i) db.deliveries) (rw (first_by-none is_newer _ e)),
      )
      | inr (d, e) ↦
          let (m, t) =
            Memᴰ-select (is_active_at i) db.deliveries d (Memᴰ-first_by is_newer _ d e) in
          inr (
            d,
            rw (e, active_delivery_id) refl,
            find_row_of_mem delivery_id db.deliveries d k.deliveries_unique m,
            t,
          )
    ]

settle-manual :
    (db : Db) (preserve : Bool) (s : Slot)
    → ((settle db preserve s).status ≡ s.status)
      ⊎ ((is_manual_slot_status s.status && preserve) ≡ false)
unfolding settle
settle-manual db preserve s = ground arith

settle-HasCurrent :
    (db : Db) (preserve : Bool) (s : Slot) → IsKeyed db → HasCurrent (settle db preserve s) db
unfolding settle
settle-HasCurrent db preserve s k = elim (Bool-cases (is_manual_slot_status s.status && preserve)) [
  | inl e ↦ rw e (active_delivery_id-cases db s.id k)
  | inr e ↦ rw e (active_delivery_id-cases db s.id k)
]

-- Reconciling a slot that exists, in a database with unique ids, leaves it settled: `occupied` only
-- when full, `available` only when not. A manual status that is to be preserved stays. The slot
-- shows one of its active deliveries, or none when it has none. Every other slot is as it was.
pub reconcile_slot_state-settles :
    (db : Db) (i : ℕ) (preserve : Bool) (s : Slot)
    → IsKeyed db
    → find_slot i db ≡ some s
    → let db' = (reconcile_slot_state db i preserve).0 in
      (t : Slot) × (find_slot i db' ≡ some t)
      × IsSettled t db'
      × ((t.status ≡ s.status) ⊎ ((is_manual_slot_status s.status && preserve) ≡ false))
      × HasCurrent t db'
      × ((j : ℕ) → (i ≡ j) ⊎ (find_slot j db' ≡ find_slot j db))
reconcile_slot_state-settles db i preserve s k h =
    let e = reconcile_slot_state-update db i preserve in
    let found =
      find_row-update_row_self slot_id (settle db preserve) (id-settle db preserve) i db.slots s
        h in
    rw e (
      settle db preserve s,
      found,
      settle-IsSettled db preserve s,
      settle-manual db preserve s,
      settle-HasCurrent db preserve s k,
      (λ j. elim (Bool-cases (i == j)) [
        | inl here ↦ inl ((==_iff i j).0 here)
        | inr there ↦ inr (
            find_row-update_row_ne slot_id (settle db preserve) (id-settle db preserve) i j db.slots
              there)
      ]),
    )
