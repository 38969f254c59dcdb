-- ===== src/Handlers/Laws.antt =====
-- Checking in by id, for a user with access.
use delivery_driver_manageme.Base.{
  ℕ, ◌≡◌, refl, true, false, Option, some, List, ==_refl, ok, Option-cases, inl, inr, ◌===◌, arith,
  ap, ◌>>=◌,
}
use delivery_driver_manageme.Schema.{Text, DeliveryStatus, waiting, status_eq, Delivery, Actor}
use delivery_driver_manageme.Store.{Db, find_delivery}
use delivery_driver_manageme.Consistency.{IsConsistent}
use delivery_driver_manageme.Permissions.{PermissionProfile}
use delivery_driver_manageme.Tickets.{Calendar, IsCalendar}
use delivery_driver_manageme.Tickets.Fresh.{IsAhead}
use delivery_driver_manageme.CheckIn.{
  Classification, resolve_check_in_goods_type, vendor_matches, mark_checked_in, unit_changed,
}
use delivery_driver_manageme.CheckIn.Queue.{HasDistinctTickets, check_in_delivery_effect}
use delivery_driver_manageme.Reception.{GrantedUnit, ensure_delivery_access}
use delivery_driver_manageme.Handlers.{is_scheduled_for_today, answer_checked_in, check_in_by_id}

own_unit : (d : Delivery) → unit_changed (some d.unit_config_id) d ≡ false
own_unit d = elim (Option-cases d.unit_config_id) [
  | inl e ↦ rw e refl
  | inr (i, e) ↦ rw (e, ==_refl i) refl
]

-- A user with access to a stored, registered delivery of today whose goods can be classified checks it in:
-- it is answered and stored as waiting, with a ticket; tickets stay distinct and the yard consistent.
pub check_in_by_id_effect :
    (calendar : Calendar) (upper : ℕ → Text) (granted : List GrantedUnit) (db : Db)
    (user : Option PermissionProfile) (actor : Actor) (now : ℕ) (d : Delivery) (c : Classification)
    → IsCalendar calendar
    → IsAhead calendar db
    → HasDistinctTickets calendar db.deliveries
    → IsConsistent db
    → find_delivery d.id db ≡ some d
    → ensure_delivery_access granted user db d ≡ ok tt
    → d.status ≡ DeliveryStatus.registered
    → is_scheduled_for_today calendar d.requested_time now ≡ true
    → resolve_check_in_goods_type d.goods_type d.original_goods_type (vendor_matches upper db d)
      ≡ ok c
    → (db' : Db) × (n : ℕ) × (check_in_by_id calendar upper granted db d.id user actor now
        ≡ ok (db', mark_checked_in now n c d))
      × (find_delivery d.id db' ≡ some (mark_checked_in now n c d))
      × HasDistinctTickets calendar db'.deliveries
      × IsConsistent db'
unfolding check_in_by_id
check_in_by_id_effect calendar upper granted db user actor now d c law a t y h access s today r =
    let (db', n, e, found, _, distinct, _, consistent, _) =
      check_in_delivery_effect calendar upper db d.id (some d.unit_config_id) actor now d c law a t
        y h (own_unit d) s r in
    let arrived : (d.status === waiting) ≡ false = ground (arith, s) in
    let fresh : (d.status === DeliveryStatus.registered) ≡ true =
      (status_eq.eq_iff d.status DeliveryStatus.registered).1 s in
    (
      db',
      n,
      rw (h, check_in_by_id)
          (rw access (rw (arrived, fresh, today) (ap (λ z. z >>= answer_checked_in) e))),
      found,
      distinct,
      consistent,
    )
