-- ===== src/TimeSlots/Laws.antt =====
-- The capacity of a day and the time slots that are offered for it.
use native.Mathlib.Nat.{div-eq-sub-div, div-eq_of_lt}
use delivery_driver_manageme.Base.{
  ℕ, true, zero, suc, ◌+◌, ◌-◌, ◌*◌, ◌/◌, ◌==◌, ◌≤◌, ◌<◌, leb, ◌≡◌, refl, sym, ap, Bool, false,
  Bool-cases, is_truthy, ◌∙◌, ◌&&◌, if◌then◌else◌, select, inl, inr, Option, some, List, [], ◌∷◌,
  ◌++◌, length, arith,
}
use delivery_driver_manageme.Schema.{VehicleType}
use delivery_driver_manageme.TimeSlots.{
  DeliveryTimeWindow, SlotLimits, WindowArgs, TimeSlot, time_to_minutes, minutes_per_slot,
  max_per_slot_of, list_enabled_capacity_windows, slot_count, total_capacity, or_fallback,
  is_without, is_of_goods_type, registration_windows, registration_total, first_windows,
  estimate_daily_capacity, get_registration_daily_capacity, time_slot, slots_from, available_slots,
}

length-++ {ℓ} : {A : Type ℓ} (xs ys : List A) → length (xs ++ ys) ≡ length xs + length ys
length-++ [] ys = omega arith
length-++ (x ∷ xs) ys = omega (arith, length-++ xs ys)

module _ (booked : ℕ → ℕ) (past : ℕ → Bool) (slot_minutes max_per_slot room : ℕ)
    (positive : 0 < slot_minutes) where
  -- With more fuel than minutes are left, the loop returns as many slots as fit in them.
  slots_from-length :
      (fuel : ℕ) (label : Option ℕ) (cur end_mins : ℕ)
      → end_mins - cur < fuel
      → (slots : List TimeSlot) × (slots_from booked past slot_minutes room fuel label cur end_mins
          ≡ some slots)
        × (length slots ≡ (end_mins - cur) / slot_minutes)
  unfolding slots_from
  slots_from-length zero label cur end_mins h = ground (arith, h)
  slots_from-length (suc fuel) label cur end_mins h =
      elim (Bool-cases (leb (cur + slot_minutes) end_mins)) [
        | inl more ↦
            let fits : cur + slot_minutes ≤ end_mins = ground (arith, more) in
            let (rest, e, n) =
              slots_from-length fuel label (cur + slot_minutes) end_mins
                (omega (arith, h, fits, positive)) in
            let left : end_mins - cur - slot_minutes ≡ end_mins - (cur + slot_minutes) =
              omega arith in
            (
              time_slot booked past slot_minutes room label cur ∷ rest,
              rw (more, e) refl,
              omega (
                arith,
                n,
                div-eq-sub-div {m = slot_minutes} {n = end_mins - cur} positive
                    (omega (arith, fits)),
                ap (λ z. z / slot_minutes) left,
              ),
            )
        | inr last ↦
            let short : end_mins < cur + slot_minutes = ground (arith, last) in
            ([], rw last refl, sym (div-eq_of_lt (omega (arith, short, positive))))
      ]

  total_capacity-add :
      (total : ℕ) (ws : List DeliveryTimeWindow)
      → total_capacity slot_minutes max_per_slot total ws
        ≡ total + total_capacity slot_minutes max_per_slot 0 ws
  unfolding total_capacity
  total_capacity-add total [] = omega arith
  total_capacity-add total (w ∷ ws) = omega (
    arith,
    total_capacity-add (total + slot_count slot_minutes w * max_per_slot) ws,
    total_capacity-add (0 + slot_count slot_minutes w * max_per_slot) ws,
  )

  available_slots-length :
      (ws : List DeliveryTimeWindow)
      → (slots : List TimeSlot) × (available_slots booked past slot_minutes room ws ≡ some slots)
        × (length slots * max_per_slot ≡ total_capacity slot_minutes max_per_slot 0 ws)
  unfolding available_slots total_capacity slot_count
  available_slots-length [] = ([], refl, omega arith)
  available_slots-length (w ∷ ws) =
      let (here, e, n) =
        slots_from-length (suc (time_to_minutes w.end_time)) w.label (time_to_minutes w.start_time)
          (time_to_minutes w.end_time) (omega arith) in
      let (later, e', n') = available_slots-length ws in
      (
        here ++ later,
        rw (e, e') refl,
        rw (length-++ here later, n)
            (omega
              (arith, n', total_capacity-add (0 + slot_count slot_minutes w * max_per_slot) ws)),
      )

or_fallback_lem :
    (ws fallback : List DeliveryTimeWindow)
    → (if is_without ws && true then fallback else ws) ≡ or_fallback ws fallback
or_fallback_lem [] fallback = refl
or_fallback_lem (w ∷ ws) fallback = refl

-- Both queries find the same windows, and both sums are the same.
registration_windows-list_enabled_capacity_windows :
    (windows : List DeliveryTimeWindow) (args : WindowArgs)
    → registration_windows windows args ≡ list_enabled_capacity_windows windows args
unfolding registration_windows first_windows list_enabled_capacity_windows
registration_windows-list_enabled_capacity_windows windows args =
    elim (Bool-cases (is_truthy args.unit_goods_type_id)) [
      | inr own ↦ rw own (ground arith)
      | inl given ↦
          rw given (or_fallback_lem (select (is_of_goods_type args.unit_goods_type_id) windows) _)
    ]

registration_total-total_capacity :
    (slot_minutes max_per_slot total : ℕ) (ws : List DeliveryTimeWindow)
    → registration_total slot_minutes max_per_slot total ws
      ≡ total_capacity slot_minutes max_per_slot total ws
unfolding registration_total total_capacity slot_count
registration_total-total_capacity slot_minutes max_per_slot total [] = refl
registration_total-total_capacity slot_minutes max_per_slot total (w ∷ ws) =
    registration_total-total_capacity slot_minutes max_per_slot
      (total + slot_count slot_minutes w * max_per_slot) ws

-- For a unit whose limits are positive and that has windows, registration enforces the capacity of a day
-- that the statistics show. It is the most deliveries of a time slot times the number of time slots that
-- the loop over the windows offers, and that loop returns.
pub get_registration_daily_capacity-available_slots :
    (limits : ℕ → Option SlotLimits) (windows : List DeliveryTimeWindow) (args : WindowArgs)
    (vehicle : VehicleType) (c : SlotLimits) (booked : ℕ → ℕ) (past : ℕ → Bool) (room : ℕ)
    (w : DeliveryTimeWindow) (ws : List DeliveryTimeWindow)
    → limits args.unit_config_id ≡ some c
    → 0 < minutes_per_slot c vehicle
    → 0 < max_per_slot_of c vehicle
    → list_enabled_capacity_windows windows args ≡ w ∷ ws
    → let slot_minutes = minutes_per_slot c vehicle in
      let max_per_slot = max_per_slot_of c vehicle in
      let found = list_enabled_capacity_windows windows args in
      (slots : List TimeSlot) × (available_slots booked past slot_minutes room found ≡ some slots)
      × (estimate_daily_capacity found slot_minutes max_per_slot ≡ length slots * max_per_slot)
      × (get_registration_daily_capacity limits windows args vehicle
          ≡ some (length slots * max_per_slot))
unfolding get_registration_daily_capacity estimate_daily_capacity
get_registration_daily_capacity-available_slots limits windows args vehicle c booked past room w ws
      h m x listed =
    let slot_minutes = minutes_per_slot c vehicle in
    let max_per_slot = max_per_slot_of c vehicle in
    let (slots, e, n) =
      available_slots-length booked past slot_minutes max_per_slot room m (w ∷ ws) in
    let paced : (slot_minutes == 0) ≡ false = ground (arith, m) in
    let roomy : (max_per_slot == 0) ≡ false = ground (arith, x) in
    (
      slots,
      rw listed e,
      rw (listed, paced, roomy) (sym n),
      rw (h, get_registration_daily_capacity)
          (rw (registration_windows-list_enabled_capacity_windows windows args, listed)
            (ap some
              (registration_total-total_capacity slot_minutes max_per_slot 0 (w ∷ ws) ∙ sym n))),
    )
