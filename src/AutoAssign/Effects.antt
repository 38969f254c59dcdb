-- ===== src/AutoAssign/Effects.antt =====
-- What one assignment writes: the waiting delivery is called, and the yard stays consistent.
use delivery_driver_manageme.Base.{
  ℕ, ◌+◌, ◌<◌, ◌==◌, ◌≡◌, refl, sym, subst, ap, ◌∙◌, ◌⊎◌, inl, inr, Bool, true, false, not, ◌&&◌,
  bit, is_truthy, Option, none, some, arith, Option-cases, Bool-cases, count_by,
  count_by-update_row, update_row, key-find_row, find_row-update_row_self, ◌===◌,
}
use delivery_driver_manageme.Schema.{waiting, status_eq, Slot, Delivery}
use delivery_driver_manageme.Store.{
  Db, IsKeyed, delivery_id, find_delivery, find_slot, slot_id, slot_unit_config_id,
}
use delivery_driver_manageme.SlotState.{is_active_at, occupancy}
use delivery_driver_manageme.SlotState.Laws.{reconcile_slot_state-update}
use delivery_driver_manageme.Consistency.{IsConsistent, reconcile_any-IsConsistent}
use delivery_driver_manageme.Consistency.Enter.{
  HasRoom, HasRoom-found, reconcile-HasRoom, enter-IsConsistent,
}
use delivery_driver_manageme.AutoAssign.{
  AssignResult, candidate_goods_for_slot, choose_delivery, mark_called, reconcile_previous,
  call_into, assign_chosen, assign_next_delivery_to_slot,
}
use delivery_driver_manageme.AutoAssign.Choice.{IsOpen, IsNext, choose_delivery-IsNext}

pub deliveries-reconcile_previous :
    (o : Option ℕ) (i : ℕ) (db : Db) → (reconcile_previous o i db).deliveries ≡ db.deliveries
unfolding reconcile_previous
deliveries-reconcile_previous none i db = refl
deliveries-reconcile_previous (some j) i db =
    elim (Bool-cases (is_truthy (some j) && not (j == i))) [
      | inl e ↦ rw (e, reconcile_slot_state-update db j true) refl
      | inr e ↦ rw e refl
    ]

pub reconcile_previous-IsConsistent :
    (o : Option ℕ) (i : ℕ) (db : Db) → IsConsistent db → IsConsistent (reconcile_previous o i db)
unfolding reconcile_previous
reconcile_previous-IsConsistent none i db c = c
reconcile_previous-IsConsistent (some j) i db c =
    elim (Bool-cases (is_truthy (some j) && not (j == i))) [
      | inl e ↦ rw e (reconcile_any-IsConsistent db j true c)
      | inr e ↦ rw e c
    ]

pub reconcile_previous-HasRoom :
    (o : Option ℕ) (i : ℕ) (db : Db) → HasRoom i db → HasRoom i (reconcile_previous o i db)
unfolding reconcile_previous
reconcile_previous-HasRoom none i db h = h
reconcile_previous-HasRoom (some j) i db h =
    elim (Bool-cases (is_truthy (some j) && not (j == i))) [
      | inl e ↦ rw e (reconcile-HasRoom db i j true h)
      | inr e ↦ rw e h
    ]

-- A waiting delivery takes no place anywhere.
pub quiet_of_waiting : (d : Delivery) → d.status ≡ waiting → (j : ℕ) → bit (is_active_at j d) ≡ 0
unfolding is_active_at
quiet_of_waiting d w j = ground arith

-- A called delivery takes a place at its slot only.
pub target_of_called :
    (i now : ℕ) (d : Delivery) (j : ℕ)
    → (j == i) ≡ false
    → bit (is_active_at j (mark_called i now d)) ≡ 0
unfolding is_active_at
target_of_called i now d j ne = ground arith

active_once_called :
    (i now : ℕ) (d : Delivery) (j : ℕ) → bit (is_active_at j (mark_called i now d)) ≡ bit (j == i)
unfolding is_active_at
active_once_called i now d j = ground arith

abbrev pub is_waiting : Delivery → Bool
is_waiting d = d.status === waiting

module _ (db : Db) (slot : Slot) (next : Delivery) (label now : ℕ) (k : IsKeyed db)
    (at : find_slot slot.id db ≡ some slot) (h : find_delivery next.id db ≡ some next)
    (w : next.status ≡ waiting) where
  pub deliveries-assign_chosen :
      (assign_chosen db slot next label now).0.deliveries
      ≡ update_row delivery_id next.id (mark_called slot.id now) db.deliveries
  unfolding assign_chosen call_into
  deliveries-assign_chosen =
      rw (reconcile_slot_state-update (call_into db slot next label now) slot.id true) (
        ap (update_row delivery_id next.id (mark_called slot.id now))
          (deliveries-reconcile_previous next.assigned_slot_id slot.id db))

  pub assign_chosen-some : (a : AssignResult) × ((assign_chosen db slot next label now).1 ≡ some a)
  unfolding assign_chosen
  assign_chosen-some = (_, refl)

  pub occupancy-assign_chosen :
      (j : ℕ)
      → occupancy j (assign_chosen db slot next label now).0 ≡ occupancy j db + bit (j == slot.id)
  occupancy-assign_chosen j = rw deliveries-assign_chosen (
      omega (
        arith,
        count_by-update_row delivery_id (is_active_at j) next.id (mark_called slot.id now)
            db.deliveries next k.deliveries_unique h,
        quiet_of_waiting next w j,
        active_once_called slot.id now next j,
      ))

  pub waiting-assign_chosen :
      count_by is_waiting (assign_chosen db slot next label now).0.deliveries + 1
      ≡ count_by is_waiting db.deliveries
  waiting-assign_chosen = rw deliveries-assign_chosen (
      let moved =
        count_by-update_row delivery_id is_waiting next.id (mark_called slot.id now) db.deliveries
          next k.deliveries_unique h in
      let was : bit (is_waiting next) ≡ 1 = rw w refl in omega (arith, moved, was))

  pub assign_chosen-IsConsistent :
      IsConsistent db
      → occupancy slot.id db < slot.max_capacity
      → IsConsistent (assign_chosen db slot next label now).0
  unfolding assign_chosen call_into
  assign_chosen-IsConsistent c room =
      enter-IsConsistent (reconcile_previous next.assigned_slot_id slot.id db)
        (mark_called slot.id now) _ next slot.id now (λ x. refl) (quiet_of_waiting next w)
        (target_of_called slot.id now next)
        (reconcile_previous-IsConsistent next.assigned_slot_id slot.id db c)
        (rw (deliveries-reconcile_previous next.assigned_slot_id slot.id db) h)
        (reconcile_previous-HasRoom next.assigned_slot_id slot.id db
          (HasRoom-found db slot.id slot k at room))

module _ (locked : ℕ → Bool) (db : Db) (i unit label now : ℕ) where
  -- A call that assigns nothing changes nothing; one that does went through the choice.
  pub assign_next_delivery_to_slot-cases :
      (assign_next_delivery_to_slot locked db i unit label now ≡ (db, none))
      ⊎ ((slot : Slot) × (next : Delivery) × (find_slot i db ≡ some slot)
          × (choose_delivery locked db slot unit ≡ some next)
          × (assign_next_delivery_to_slot locked db i unit label now
              ≡ assign_chosen db slot next label now))
  unfolding assign_next_delivery_to_slot
  assign_next_delivery_to_slot-cases = elim (Option-cases (find_slot i db)) [
    | inl e ↦ inl (rw (e, assign_next_delivery_to_slot))
    | inr (slot, e) ↦ elim (Option-cases (choose_delivery locked db slot unit)) [
      | inl e' ↦ inl (rw (e, assign_next_delivery_to_slot) (rw e'))
      | inr (next, e') ↦ inr (slot, next, e, e', rw (e, assign_next_delivery_to_slot) (rw e'))
    ]
  ]

  -- A call for an open slot that assigns nothing found no delivery.
  pub assign_next_delivery_to_slot-none :
      (slot : Slot)
      → IsKeyed db
      → find_slot i db ≡ some slot
      → assign_next_delivery_to_slot locked db i unit label now ≡ (db, none)
      → choose_delivery locked db slot unit ≡ none
  unfolding assign_next_delivery_to_slot assign_chosen
  assign_next_delivery_to_slot-none slot keyed at h =
      elim (Option-cases (choose_delivery locked db slot unit)) [
        | inl e ↦ e
        | inr (next, e) ↦
            let chosen : assign_next_delivery_to_slot locked db i unit label now
                ≡ assign_chosen db slot next label now =
              rw (at, assign_next_delivery_to_slot) (rw e) in
            cc (ap (λ x. x.1) (sym chosen ∙ h))
      ]

  -- In a consistent yard an assignment either changes nothing, or calls the delivery that is next for
  -- the open slot: it is stored as called into that slot, the slot's occupancy grows by one, no other
  -- occupancy changes, one delivery fewer waits, and the yard stays consistent.
  pub assign_next_delivery_to_slot_effect :
      IsConsistent db
      → let (db', r) = assign_next_delivery_to_slot locked db i unit label now in
        ((r ≡ none) × (db' ≡ db))
        ⊎ ((slot : Slot) × (next : Delivery) × (a : AssignResult) × (find_slot i db ≡ some slot)
            × (r ≡ some a)
            × IsOpen db slot unit
            × IsNext locked db slot
                (slot_unit_config_id slot db)
                (candidate_goods_for_slot slot)
                next
            × (find_delivery next.id db' ≡ some (mark_called slot.id now next))
            × ((j : ℕ) → occupancy j db' ≡ occupancy j db + bit (j == slot.id))
            × (count_by is_waiting db'.deliveries + 1 ≡ count_by is_waiting db.deliveries)
            × IsConsistent db')
  assign_next_delivery_to_slot_effect c = elim assign_next_delivery_to_slot-cases [
    | inl e ↦ inl (rw e refl, rw e refl)
    | inr (slot, next, at, chosen, e) ↦
        let (open_slot, w, n) = choose_delivery-IsNext locked db slot unit next c.keyed chosen in
        let own : find_slot slot.id db ≡ some slot =
          subst (λ j. find_slot j db ≡ some slot) (sym (key-find_row slot_id i db.slots slot at))
            at in
        inr (
          slot,
          next,
          (assign_chosen-some db slot next label now c.keyed own n.stored w).0,
          at,
          rw e (assign_chosen-some db slot next label now c.keyed own n.stored w).1,
          open_slot,
          n,
          rw (e, deliveries-assign_chosen db slot next label now c.keyed own n.stored w)
              (find_row-update_row_self delivery_id (mark_called slot.id now) (λ x. refl) next.id
                db.deliveries next n.stored),
          (λ j. rw e (occupancy-assign_chosen db slot next label now c.keyed own n.stored w j)),
          rw e (waiting-assign_chosen db slot next label now c.keyed own n.stored w),
          rw e (
              assign_chosen-IsConsistent db slot next label now c.keyed own n.stored w c
                open_slot.has_room),
        )
  ]
