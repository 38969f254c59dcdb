-- ===== src/CheckIn/Laws.antt =====
-- What check-in does, on every branch.
use delivery_driver_manageme.Base.{
  ℕ, ◌≡◌, refl, sym, ◌⊎◌, inl, inr, Bool, true, false, or_else, Option, some, Bool-cases, conflict,
  Result, ok, thrown, ◌===◌,
}
use delivery_driver_manageme.Schema.{
  DeliveryStatus, status_eq, GoodsType, goods_eq, Text, Delivery, Actor,
}
use delivery_driver_manageme.Store.{Db, find_delivery}
use delivery_driver_manageme.Tickets.{Calendar}
use delivery_driver_manageme.CheckIn.{
  Classification, resolve_check_in_goods_type, vendor_matches, unit_changed, check_in_classified,
  check_in_registered, check_in_delivery,
}

-- The goods are classified unless the vendor does not match and the original type is the automatic
-- warehouse; then the flag is the vendor's match, and says whether the new type is the automatic
-- warehouse.
pub resolve_check_in_goods_type_lem :
    (goods : GoodsType) (original : Option GoodsType) (matches : Bool)
    → ((resolve_check_in_goods_type goods original matches ≡ thrown conflict)
        × (matches ≡ false)
        × (or_else original goods ≡ GoodsType.auto_warehouse))
      ⊎ ((c : Classification) × (resolve_check_in_goods_type goods original matches ≡ ok c)
          × (c.auto_warehouse ≡ matches)
          × (c.auto_warehouse ≡ (c.goods_type === GoodsType.auto_warehouse)))
unfolding resolve_check_in_goods_type
resolve_check_in_goods_type_lem goods original true = inr (_, refl, refl, refl)
resolve_check_in_goods_type_lem goods original false =
    let g = or_else original goods in
    elim (Bool-cases (g === GoodsType.auto_warehouse)) [
      | inl h ↦ inl (rw (h, resolve_check_in_goods_type) refl, refl, (goods_eq.eq_iff g _).0 h)
      | inr h ↦ inr (_, rw (h, resolve_check_in_goods_type) refl, refl, sym h)
    ]

module _ (calendar : Calendar) (upper : ℕ → Text) (db : Db) (i : ℕ) (expected : Option (Option ℕ))
    (actor : Actor) (now : ℕ) (d : Delivery) (h : find_delivery i db ≡ some d) where
  abbrev classified : Result Classification
  classified =
      resolve_check_in_goods_type d.goods_type d.original_goods_type (vendor_matches upper db d)

  pub check_in_delivery-registered :
      unit_changed expected d ≡ false
      → d.status ≡ DeliveryStatus.registered
      → check_in_delivery calendar upper db i expected actor now
        ≡ check_in_registered calendar upper db d actor now
  unfolding check_in_delivery
  check_in_delivery-registered u s = rw (h, check_in_delivery) (rw (u, s) refl)

  pub check_in_registered-ok :
      (c : Classification)
      → classified ≡ ok c
      → check_in_registered calendar upper db d actor now
        ≡ ok (check_in_classified calendar db d actor now c)
  unfolding check_in_registered
  check_in_registered-ok c e = rw (e, check_in_registered) refl

  pub check_in_registered-err :
      classified ≡ thrown conflict
      → check_in_registered calendar upper db d actor now ≡ thrown conflict
  unfolding check_in_registered
  check_in_registered-err e = rw (e, check_in_registered) refl
