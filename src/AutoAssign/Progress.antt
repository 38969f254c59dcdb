-- ===== src/AutoAssign/Progress.antt =====
-- The loop of `triggerAutoAssign` ends, and leaves no delivery that a slot with room could take.
use delivery_driver_manageme.Base.{
  ℕ, zero, suc, ◌+◌, ◌<◌, ◌≡◌, refl, sym, ap, subst, ◌∙◌, ◌⊎◌, inl, inr, Bool, true, ◌&&◌, Option,
  none, some, List, [], ◌∷◌, All, All-both, All-select, All-sort_by, arith, count_by, ltb, ltb→lt,
  select, select-All, All-find_row, &&_true,
}
use delivery_driver_manageme.Schema.{Slot}
use delivery_driver_manageme.Store.{Db, Scope, IsKeyed, find_slot, slot_id, slot_unit_config_id}
use delivery_driver_manageme.SlotState.{occupancy}
use delivery_driver_manageme.Consistency.{IsConsistent}
use delivery_driver_manageme.AutoAssign.{
  AssignResult, candidate_goods_for_slot, assign_next_delivery_to_slot,
}
use delivery_driver_manageme.AutoAssign.Choice.{IsOpen, NoneSuits, choose_delivery-none}
use delivery_driver_manageme.AutoAssign.Effects.{
  is_waiting, assign_next_delivery_to_slot-none, assign_next_delivery_to_slot_effect,
}
use delivery_driver_manageme.AutoAssign.Trigger.{
  CodeOrders, is_listed, candidate_slots, assign_round, trigger_from, trigger_auto_assign,
}

abbrev pub waiting_count : Db → ℕ
waiting_count db = count_by is_waiting db.deliveries

is_listed-IsOpen :
    (db : Db) (unit : ℕ) (scope : Scope) (s : Slot)
    → is_listed db unit scope s ≡ true
    → occupancy s.id db < s.max_capacity
    → IsOpen db s unit
unfolding is_listed
is_listed-IsOpen db unit scope s h room = record {
  own_unit = ground arith;
  active = ground arith;
  automatic = ground arith;
  not_manual = ground arith;
  has_room = room;
}

module _ (locked : ℕ → ℕ → Bool) (clock : ℕ → ℕ) (label : ℕ) where
  abbrev Untaken : ℕ → Db → ℕ → Slot → Type 0
  Untaken k db unit s =
      assign_next_delivery_to_slot (locked k) db s.id unit label (clock k) ≡ (db, none)

  -- A round assigns one delivery, or changes nothing and has no delivery for any slot of its list.
  abbrev RoundCases : ℕ → Db → ℕ → List Slot → Db × Option AssignResult → Type 0
  RoundCases k db unit slots (db', r) =
      ((r ≡ none) × (db' ≡ db) × All (Untaken k db unit) slots)
      ⊎ ((a : AssignResult) × (r ≡ some a)
          × IsConsistent db'
          × (waiting_count db' + 1 ≡ waiting_count db))

  -- What the inner loop does with the answer for the first slot of its list.
  abbrev after : ℕ → ℕ → List Slot → Db × Option AssignResult → Db × Option AssignResult
  after k unit rest x = elim x.1 [
    | none ↦ assign_round locked clock label k x.0 unit rest
    | some a ↦ (x.0, some a)
  ]

  assign_round-after :
      (k : ℕ) (db : Db) (unit : ℕ) (s : Slot) (rest : List Slot)
      → assign_round locked clock label k db unit (s ∷ rest)
        ≡ after k unit rest (assign_next_delivery_to_slot (locked k) db s.id unit label (clock k))
  unfolding assign_round
  assign_round-after k db unit s rest = refl

  assign_round-skip :
      (k : ℕ) (db : Db) (unit : ℕ) (s : Slot) (rest : List Slot)
      → Untaken k db unit s
      → assign_round locked clock label k db unit (s ∷ rest)
        ≡ assign_round locked clock label k db unit rest
  assign_round-skip k db unit s rest e =
      assign_round-after k db unit s rest ∙ ap (after k unit rest) e

  assign_round-taken :
      (k : ℕ) (db : Db) (unit : ℕ) (s : Slot) (rest : List Slot) (a : AssignResult)
      → (assign_next_delivery_to_slot (locked k) db s.id unit label (clock k)).1 ≡ some a
      → assign_round locked clock label k db unit (s ∷ rest)
        ≡ assign_next_delivery_to_slot (locked k) db s.id unit label (clock k)
  assign_round-taken k db unit s rest a e =
      let x = assign_next_delivery_to_slot (locked k) db s.id unit label (clock k) in
      assign_round-after k db unit s rest
      ∙ subst (λ r. after k unit rest (x.0, r) ≡ (x.0, r)) (sym e) refl

  assign_round-RoundCases :
      (k : ℕ) (db : Db) (unit : ℕ) (slots : List Slot)
      → IsConsistent db
      → RoundCases k db unit slots (assign_round locked clock label k db unit slots)
  unfolding assign_round
  assign_round-RoundCases k db unit [] c = inl (refl, refl, tt)
  assign_round-RoundCases k db unit (s ∷ rest) c =
      elim (assign_next_delivery_to_slot_effect (locked k) db s.id unit label (clock k) c) [
        | inl (r, same_db) ↦
            let e : Untaken k db unit s = cc (same_db, r) in
            subst (RoundCases k db unit (s ∷ rest)) (sym (assign_round-skip k db unit s rest e))
              (elim (assign_round-RoundCases k db unit rest c) [
                | inl (r', d', t) ↦ inl (r', d', (e, t))
                | inr x ↦ inr x
              ])
        | inr (slot, next, a, at, r, o, n, f, occ, w, c') ↦
            subst (RoundCases k db unit (s ∷ rest)) (sym (assign_round-taken k db unit s rest a r))
              (inr (a, r, c', w))
      ]

  -- What a call of the outer loop that starts with `called` leaves behind.
  abbrev Ends : CodeOrders → Db → ℕ → Scope → ℕ → Option (Db × ℕ) → Type 0
  Ends orders db unit scope called result =
      (db' : Db) × (n : ℕ) × (result ≡ some (db', n))
      × IsConsistent db'
      × (n + waiting_count db' ≡ called + waiting_count db)
      × All (Untaken n db' unit) (candidate_slots orders db' unit scope)

  trigger_from-Ends :
      (orders : CodeOrders) (fuel : ℕ) (db : Db) (unit : ℕ) (scope : Scope) (called : ℕ)
      → IsConsistent db
      → waiting_count db < fuel
      → Ends orders db unit scope called
          (trigger_from locked clock label orders fuel db unit scope called)
  unfolding trigger_from
  trigger_from-Ends orders zero db unit scope called c h =
      let impossible : ⊥ = omega (arith, h) in absurd impossible
  trigger_from-Ends orders (suc fuel) db unit scope called c h =
      elim (assign_round-RoundCases called db unit (candidate_slots orders db unit scope) c) [
        | inl (r, d, t) ↦
            (db, called, rw (r, trigger_from) (ap (λ x. some (x, called)) d), c, refl, t)
        | inr (a, r, c', w) ↦
            let (db'', n, e, c'', sum, t) =
              trigger_from-Ends orders fuel _ unit scope (called + 1) c' (omega (arith, h, w)) in
            (db'', n, rw (r, trigger_from) e, c'', omega (arith, sum, w), t)
      ]

  Untaken-NoneSuits :
      (k : ℕ) (db : Db) (unit : ℕ) (scope : Scope) (s : Slot)
      → IsKeyed db
      → find_slot s.id db ≡ some s
      → is_listed db unit scope s ≡ true
      → occupancy s.id db < s.max_capacity
      → Untaken k db unit s
      → All (NoneSuits (locked k) db s (slot_unit_config_id s db)) (candidate_goods_for_slot s)
  Untaken-NoneSuits k db unit scope s keyed at listed room u =
      choose_delivery-none (locked k) db s unit (is_listed-IsOpen db unit scope s listed room)
        (assign_next_delivery_to_slot-none (locked k) db s.id unit label (clock k) s keyed at u)
        keyed

  -- Every slot that the query lists and that has room: nothing in the queue suits it.
  abbrev pub Drained : ℕ → Db → ℕ → Scope → Type 0
  Drained k db unit scope =
      All
        (λ s.
          All (NoneSuits (locked k) db s (slot_unit_config_id s db)) (candidate_goods_for_slot s))
        (select (λ s. is_listed db unit scope s && ltb (occupancy s.id db) s.max_capacity) db.slots)

  Untaken-Drained :
      (orders : CodeOrders) (k : ℕ) (db : Db) (unit : ℕ) (scope : Scope)
      → IsKeyed db
      → All (Untaken k db unit) (candidate_slots orders db unit scope)
      → Drained k db unit scope
  unfolding candidate_slots
  Untaken-Drained orders k db unit scope keyed t =
      let roomy = All-sort_by _ (Untaken k db unit) _ t in
      let listed = All-sort_by _ _ _ (All-select (Untaken k db unit) _ _ roomy) in
      let every = All-select _ (is_listed db unit scope) db.slots listed in
      select-All _ _ db.slots (
        All-both _ _ _ db.slots
          (λ s at u open_s.
            let (listed_s, room) = &&_true _ _ open_s in
            Untaken-NoneSuits k db unit scope s keyed at listed_s (ltb→lt _ _ room)
              (u listed_s room))
          (All-find_row slot_id db.slots keyed.slots_unique) every)

  -- From a consistent yard and with more fuel than deliveries wait, `triggerAutoAssign` returns: it
  -- has called as many deliveries as fewer wait now, the yard is consistent, and no delivery that it
  -- may lock suits any listed slot that has room.
  pub trigger_auto_assign_ends :
      (orders : CodeOrders) (fuel : ℕ) (db : Db) (unit : ℕ) (scope : Scope)
      → IsConsistent db
      → waiting_count db < fuel
      → (db' : Db) × (n : ℕ) × (trigger_auto_assign locked clock label orders fuel db unit scope
          ≡ some (db', n))
        × IsConsistent db'
        × (n + waiting_count db' ≡ waiting_count db)
        × Drained n db' unit scope
  unfolding trigger_auto_assign
  trigger_auto_assign_ends orders fuel db unit scope c h =
      let (db', n, e, c', sum, t) = trigger_from-Ends orders fuel db unit scope 0 c h in
      (db', n, e, c', omega (arith, sum), Untaken-Drained orders n db' unit scope c'.keyed t)
