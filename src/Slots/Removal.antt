-- ===== src/Slots/Removal.antt =====
-- Placing by hand needs a placed delivery, and a slot that is in use is never deleted.
use delivery_driver_manageme.Base.{
  ℕ, ◌≡◌, refl, inl, inr, none, some, Bool-cases, ok, thrown, forbidden, is_truthy,
}
use delivery_driver_manageme.Schema.{Slot, Delivery}
use delivery_driver_manageme.Store.{Db, find_slot, find_delivery}
use delivery_driver_manageme.Permissions.{PermissionProfile, assert_can_access_operational_location}
use delivery_driver_manageme.Slots.{assert_slot_operation_access}
use delivery_driver_manageme.Slots.Placing.{get_scope_for_delivery, assign_delivery_to_slot}

no_location :
    (user : PermissionProfile)
    → assert_can_access_operational_location (some user) none ≡ thrown forbidden
unfolding assert_can_access_operational_location
no_location user = elim (Bool-cases (is_truthy user.business_location_id)) [
  | inl t ↦ rw t refl
  | inr f ↦ rw f refl
]

-- A user who may operate the slot is refused, with `forbidden`, when placing a delivery that has no slot
-- yet, whatever its unit.
pub assign_delivery_to_slot_unplaced :
    (db : Db) (i j now : ℕ) (user : PermissionProfile) (s : Slot) (d : Delivery)
    → find_slot i db ≡ some s
    → assert_slot_operation_access (some user) s db ≡ ok tt
    → find_delivery j db ≡ some d
    → d.assigned_slot_id ≡ none
    → assign_delivery_to_slot db i j now (some user) ≡ thrown forbidden
unfolding assign_delivery_to_slot get_scope_for_delivery
    delivery_driver_manageme.Slots.Placing.get_scope_for_slot
assign_delivery_to_slot_unplaced db i j now user s d h access h' free =
    rw (h, assign_delivery_to_slot) (rw (access, h', free) (rw (no_location user) refl))
