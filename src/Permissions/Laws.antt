-- ===== src/Permissions/Laws.antt =====
-- The rules agree with one another.
use delivery_driver_manageme.Base.{
  ℕ, ◌≡◌, ◌↔◌, inl, inr, refl, ap, ◌==◌, arith, true, false, not, ◌||◌, is_truthy, same, Option,
  none, some, List, [], ◌∷◌, any, select, includes, ◌===◌, nat_eq, All, unauthorized, forbidden, ok,
  thrown, require, ◌>>◌, Bool-cases, if◌then◌else◌,
}
use delivery_driver_manageme.Permissions.{
  Role, superadmin, role_eq, PermissionUnit, PermissionProfile, role_has_unit_operation_scope,
  can_manage_user_role, can_assign_user_scope, active_ids, get_operation_unit_ids, is_active_unit,
  can_operate_unit, filter_operable_units, assert_can_operate_unit,
  assert_can_access_operational_location,
}

-- Who may manage a role may give it its units; managing is never mutual, so no role manages itself;
-- and nobody manages a superadmin.
pub can_manage_user_role_lem :
    (actor target : Role)
    → can_manage_user_role (some actor) target ≡ true
    → (can_assign_user_scope (some actor) target ≡ true)
      × (can_manage_user_role (some target) actor ≡ false)
      × (role_has_unit_operation_scope (some target) ≡ true)
unfolding can_manage_user_role can_assign_user_scope role_has_unit_operation_scope
can_manage_user_role_lem actor target h = ground arith

includes-active_ids :
    (i : ℕ) (us : List PermissionUnit)
    → includes (active_ids us) i ≡ any (is_active_unit (some i)) us
unfolding select any
includes-active_ids i [] = refl
includes-active_ids i (u ∷ us) = elim (Bool-cases u.is_active) [
  | inl a ↦ ground (arith, a, includes-active_ids i us)
  | inr a ↦ ground (arith, a, includes-active_ids i us)
]

superadmin_operable {ℓ} :
    {A : Type ℓ} (id : A → ℕ) (p : PermissionProfile)
    → (p.role === superadmin) ≡ true
    → (units : List A) → All (λ u. (id u == 0) ≡ false) units
    → units ≡ select (λ u. can_operate_unit (some p) (some (id u))) units
unfolding select can_operate_unit
superadmin_operable id p s [] h = refl
superadmin_operable id p s (u ∷ us) h =
    let keep : can_operate_unit (some p) (some (id u)) ≡ true =
      rw (h.0, can_operate_unit) (rw s refl) in
    rw (keep) (ap (λ l. u ∷ l) (superadmin_operable id p s us h.1))

member_operable {ℓ} :
    {A : Type ℓ} (id : A → ℕ) (p : PermissionProfile)
    → (p.role === superadmin) ≡ false
    → (units : List A) → All (λ u. (id u == 0) ≡ false) units
    → select (λ u. includes (get_operation_unit_ids (some p)) (id u)) units
      ≡ select (λ u. can_operate_unit (some p) (some (id u))) units
unfolding select can_operate_unit get_operation_unit_ids
member_operable id p s [] h = refl
member_operable id p s (u ∷ us) h =
    let same_test : includes (active_ids p.operation_units) (id u)
        ≡ can_operate_unit (some p) (some (id u)) =
      rw (h.0, can_operate_unit) (rw s (includes-active_ids (id u) p.operation_units)) in
    ground (arith, same_test, member_operable id p s us h.1)

-- `filterOperableUnits` keeps exactly the units on which `canOperateUnit` agrees, if no unit's id is
-- the empty text.
pub filter_operable_units-can_operate_unit {ℓ} :
    {A : Type ℓ} (id : A → ℕ) (p : PermissionProfile) (units : List A)
    → All (λ u. (id u == 0) ≡ false) units
    → filter_operable_units id p units ≡ select (λ u. can_operate_unit (some p) (some (id u))) units
unfolding filter_operable_units
filter_operable_units-can_operate_unit id p units named =
    elim (Bool-cases (p.role === superadmin)) [
      | inl s ↦ rw (s, filter_operable_units) (superadmin_operable id p s units named)
      | inr s ↦ rw (s, filter_operable_units) (member_operable id p s units named)
    ]

-- `assertCanOperateUnit` passes exactly for a user whose role is not bound to units, or who may
-- operate the unit; without a user it is `unauthorized`, and else `forbidden`.
pub assert_can_operate_unit_lem :
    (user : PermissionProfile) (i : Option ℕ)
    → (assert_can_operate_unit none i ≡ thrown unauthorized)
      × (assert_can_operate_unit (some user) i ≡ (
          if not (role_has_unit_operation_scope (some user.role)) || can_operate_unit (some user) i
          then ok tt
          else thrown forbidden))
unfolding assert_can_operate_unit can_operate_unit
assert_can_operate_unit_lem user i = (refl, ground arith)

access :
    (here target : Option ℕ)
    → (require (is_truthy here) forbidden
          >> (require (is_truthy target) forbidden >> require (same target here) forbidden)
        ≡ ok tt)
      ↔ ((target ≡ here) × (is_truthy target ≡ true))
access none none = ((λ h. cc h), (λ h. cc (h.1)))
access none (some b) = ((λ h. cc h), (λ h. cc (h.0)))
access (some a) none = ((λ h. ground arith), (λ h. cc (h.0)))
access (some a) (some b) = ((λ h. (ground arith, ground arith)), (λ h. ground arith))

-- `assertCanAccessOperationalLocation` passes exactly for a user with a current location, on a
-- resource of that location.
pub assert_can_access_operational_location_lem :
    (user : PermissionProfile) (target : Option ℕ)
    → (assert_can_access_operational_location (some user) target ≡ ok tt)
      ↔ ((target ≡ user.business_location_id) × (is_truthy target ≡ true))
unfolding assert_can_access_operational_location
assert_can_access_operational_location_lem user target = (access user.business_location_id target)
