-- ===== src/CheckIn/Verdict.antt =====
-- Which deliveries are checked in, and as what goods.
use delivery_driver_manageme.Base.{
  ℕ, ◌≡◌, ◌≢◌, refl, sym, ap, subst, ◌∙◌, ◌⊎◌, inl, inr, Bool, true, false, or_else, Option, none,
  some, Bool-cases, Option-cases, conflict, Result, ok, thrown, ◌===◌, same, same_iff, find_row,
  find_row-update_row_self, key-find_row, arith,
}
use delivery_driver_manageme.Schema.{
  DeliveryStatus, waiting, status_eq, GoodsType, goods_eq, Text, Delivery, Actor, VehicleType,
}
use delivery_driver_manageme.Store.{Db, delivery_id, find_delivery}
use delivery_driver_manageme.Tickets.{
  Calendar, reserve_ticket_number, upsert_sequence, find_sequence,
}
use delivery_driver_manageme.CheckIn.{
  Classification, CheckInResult, resolve_check_in_goods_type, vendor_matches, unit_changed,
  mark_checked_in, check_in_classified, check_in_delivery,
}
use delivery_driver_manageme.CheckIn.Laws.{
  check_in_delivery-registered, check_in_registered-ok, check_in_registered-err,
}

-- The caller expects another unit than the delivery's, or that of the delivery or any.
abbrev pub IsOtherUnit : Option (Option ℕ) → Delivery → Type 0
IsOtherUnit expected d = (u : Option ℕ) × (expected ≡ some u) × (d.unit_config_id ≢ u)

abbrev pub IsOwnUnit : Option (Option ℕ) → Delivery → Type 0
IsOwnUnit expected d = (expected ≡ none) ⊎ (expected ≡ some d.unit_config_id)

unit-cases :
    (expected : Option (Option ℕ)) (d : Delivery)
    → (IsOtherUnit expected d × (unit_changed expected d ≡ true))
      ⊎ (IsOwnUnit expected d × (unit_changed expected d ≡ false))
unit-cases none d = inr (inl refl, refl)
unit-cases (some u) d = elim (Bool-cases (same d.unit_config_id u)) [
  | inl y ↦ inr (inr (ap some (sym ((same_iff _ _).0 y))), rw y refl)
  | inr n ↦ inl ((u, refl, (λ e. cc (n, (same_iff d.unit_config_id u).1 e))), rw n refl)
]

-- The goods that the driver declared first.
abbrev pub IsDeclared : Delivery → GoodsType → Type 0
IsDeclared d g =
    (d.original_goods_type ≡ some g) ⊎ ((d.original_goods_type ≡ none) × (d.goods_type ≡ g))

-- Automatic warehouse exactly for a vendor of it, and else the goods declared first.
abbrev pub IsGoodsOf : Bool → Delivery → GoodsType → Bool → Type 0
IsGoodsOf vendor d goods automatic =
    ((vendor ≡ true) × (goods ≡ GoodsType.auto_warehouse) × (automatic ≡ true))
    ⊎ ((vendor ≡ false)
        × IsDeclared d goods
        × (goods ≢ GoodsType.auto_warehouse)
        × (automatic ≡ false))

declared : (d : Delivery) → IsDeclared d (or_else d.original_goods_type d.goods_type)
declared d = elim (Option-cases d.original_goods_type) [
  | inl e ↦ inr (e, rw e refl)
  | inr (g, e) ↦
      let own : or_else d.original_goods_type d.goods_type ≡ g = rw e refl in
      inl (e ∙ ap some (sym own))
]

goods-cases :
    (d : Delivery) (vendor : Bool)
    → ((vendor ≡ false)
        × IsDeclared d GoodsType.auto_warehouse
        × (resolve_check_in_goods_type d.goods_type d.original_goods_type vendor ≡ thrown conflict))
      ⊎ ((c : Classification) × (resolve_check_in_goods_type d.goods_type d.original_goods_type
              vendor
            ≡ ok c)
          × IsGoodsOf vendor d c.goods_type c.auto_warehouse)
unfolding resolve_check_in_goods_type
goods-cases d true = inr (_, refl, inl (refl, refl, refl))
goods-cases d false =
    let g = or_else d.original_goods_type d.goods_type in
    elim (Bool-cases (g === GoodsType.auto_warehouse)) [
      | inl y ↦ inl (
        refl,
        subst (IsDeclared d) ((goods_eq.eq_iff g _).0 y) (declared d),
        rw (y, resolve_check_in_goods_type) refl,
      )
      | inr n ↦ inr (
        record { goods_type = g; auto_warehouse = false },
        rw (n, resolve_check_in_goods_type) refl,
        inr (refl, declared d, (λ e. cc (n, (goods_eq.eq_iff g _).1 e)), refl),
      )
    ]

deliveries-reserve_ticket_number :
    (calendar : Calendar) (db : Db) (unit : ℕ) (vehicle : VehicleType) (now : ℕ)
    → (reserve_ticket_number calendar db unit vehicle now).0.deliveries ≡ db.deliveries
unfolding reserve_ticket_number upsert_sequence
deliveries-reserve_ticket_number calendar db unit vehicle now =
    elim (Option-cases (find_sequence (calendar.vn_date_key now) unit vehicle db)) [
      | inl e ↦ rw (e, upsert_sequence) refl
      | inr (q, e) ↦ rw (e, upsert_sequence) refl
    ]

module _ (calendar : Calendar) (upper : ℕ → Text) (db : Db) (i : ℕ) (expected : Option (Option ℕ))
    (actor : Actor) (now : ℕ) (d : Delivery) (found : find_delivery i db ≡ some d) where
  abbrev vendor : Bool
  vendor = vendor_matches upper db d

  abbrev answer : Result (Db × CheckInResult)
  answer = check_in_delivery calendar upper db i expected actor now

  -- The delivery is stored and answered as waiting, with its goods.
  abbrev IsCheckedIn : Type 0
  IsCheckedIn =
      (db' : Db) × (u : Delivery) × (answer
        ≡ ok (db', record { checked_in = true; delivery = some u }))
      × (find_delivery i db' ≡ some u)
      × (u.status ≡ waiting)
      × (u.checkin_time ≡ some now)
      × IsGoodsOf vendor d u.goods_type u.auto_warehouse

  classified-IsCheckedIn :
      (c : Classification)
      → answer ≡ ok (check_in_classified calendar db d actor now c)
      → IsGoodsOf vendor d c.goods_type c.auto_warehouse
      → IsCheckedIn
  unfolding check_in_classified
  classified-IsCheckedIn c e goods =
      let (reserved, n) = reserve_ticket_number calendar db d.receiving_unit d.vehicle_type now in
      let own = key-find_row delivery_id i db.deliveries d found in
      (
        (check_in_classified calendar db d actor now c).0,
        mark_checked_in now n c d,
        e,
        subst
            (λ k.
              find_delivery k (check_in_classified calendar db d actor now c).0
              ≡ some (mark_checked_in now n c d))
            own
            (find_row-update_row_self delivery_id (mark_checked_in now n c) (λ x. refl) d.id
              reserved.deliveries d
              (ap (find_row delivery_id d.id)
                  (deliveries-reserve_ticket_number calendar db d.receiving_unit d.vehicle_type now)
                ∙ subst (λ k. find_delivery k db ≡ some d) (sym own) found)),
        refl,
        refl,
        goods,
      )

  registered-verdict :
      unit_changed expected d ≡ false
      → d.status ≡ DeliveryStatus.registered
      → ((vendor ≡ false) × IsDeclared d GoodsType.auto_warehouse × (answer ≡ thrown conflict))
        ⊎ IsCheckedIn
  registered-verdict u s = elim (goods-cases d vendor) [
    | inl (other, automatic, e) ↦ inl (
      other,
      automatic,
      check_in_delivery-registered calendar upper db i expected actor now d found u s
          ∙ check_in_registered-err calendar upper db i expected actor now d found e,
    )
    | inr (c, e, goods) ↦ inr (
        classified-IsCheckedIn c
          (check_in_delivery-registered calendar upper db i expected actor now d found u s
            ∙ check_in_registered-ok calendar upper db i expected actor now d found c e)
          goods)
  ]

  left_alone :
      unit_changed expected d ≡ false
      → (d.status === DeliveryStatus.registered) ≡ false
      → answer ≡ ok (db, record { checked_in = false; delivery = some d })
  unfolding check_in_delivery
  left_alone u s = rw (found, check_in_delivery) (ground (arith, u, s))

  refused : unit_changed expected d ≡ true → answer ≡ thrown conflict
  unfolding check_in_delivery
  refused u = rw (found, check_in_delivery) (rw u refl)

  -- Checking in a stored delivery fails if another unit than the delivery's is expected. A delivery that is
  -- not registered any more is answered, and nothing is written. A registered one fails if the driver
  -- declared the automatic warehouse first and the vendor is none of it; otherwise it is stored and
  -- answered as waiting, checked in now, with the automatic warehouse as its goods for a vendor of it, and
  -- else with the goods declared first.
  pub check_in_delivery_verdict :
      (IsOtherUnit expected d × (answer ≡ thrown conflict))
      ⊎ (IsOwnUnit expected d
          × (d.status ≢ DeliveryStatus.registered)
          × (answer ≡ ok (db, record { checked_in = false; delivery = some d })))
      ⊎ (IsOwnUnit expected d
          × (d.status ≡ DeliveryStatus.registered)
          × (((vendor ≡ false) × IsDeclared d GoodsType.auto_warehouse × (answer ≡ thrown conflict))
              ⊎ IsCheckedIn))
  check_in_delivery_verdict = elim (unit-cases expected d) [
    | inl (other, u) ↦ inl (other, refused u)
    | inr (own, u) ↦ elim (Bool-cases (d.status === DeliveryStatus.registered)) [
      | inl y ↦
          let s = (status_eq.eq_iff d.status DeliveryStatus.registered).0 y in
          inr (inr (own, s, registered-verdict u s))
      | inr n ↦ inr (
          inl (
            own,
            (λ s. cc (n, (status_eq.eq_iff d.status DeliveryStatus.registered).1 s)),
            left_alone u n,
          ))
    ]
  ]
