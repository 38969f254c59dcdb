-- ===== src/Permissions.antt =====
-- backend/src/domain/permissions.ts and permissionAssertions.ts: who may do what where.
-- An absent user, role or id is `none`; of a profile only what the rules read is modelled.
pub mod Laws
use delivery_driver_manageme.Base.{
  ℕ, ◌+◌, ◌≡◌, ◌==◌, arith, Bool, true, false, not, ◌&&◌, ◌||◌, if◌then◌else◌, is_truthy, same,
  Option, none, some, List, [], ◌∷◌, map, any, all, select, includes, ◌===◌, Eq, code_iff, nat_eq,
  DomainErrorKind, unauthorized, forbidden, Result, ok, thrown, require, ◌>>=◌, ◌>>◌, or_throw,
}

-- `AppRole`; any other text is `unknown`.
pub data Role : Type 0 where
  superadmin admin_loc admin_ope receiving checkin : Role
  unknown : ℕ → Role

abbrev pub role_code : Role → ℕ
role_code superadmin = 0
role_code admin_loc = 1
role_code admin_ope = 2
role_code receiving = 3
role_code checkin = 4
role_code (unknown n) = 5 + n

pub role_code-injective : (a b : Role) → role_code a ≡ role_code b → a ≡ b
role_code-injective a b h = ground arith

instance abbrev pub role_eq : Eq Role
role_eq = record {
  eq = λ a b. role_code a == role_code b;
  eq_iff = code_iff role_code role_code-injective;
}

pub record PermissionUnit : Type 0 where
  pub id : ℕ
  pub is_active : Bool

pub record PermissionProfile : Type 0 where
  pub role : Role
  pub business_location_id : Option ℕ
  pub operation_units : List PermissionUnit
  pub manageable_units : Option (List PermissionUnit)

pub data UnitAccessState : Type 0 where
  enabled read_only disabled hidden : UnitAccessState

abbrev staff_roles : List Role
staff_roles = admin_loc ∷ admin_ope ∷ receiving ∷ checkin ∷ []

unfoldable pub role_has_unit_operation_scope : Option Role → Bool
role_has_unit_operation_scope none = false
role_has_unit_operation_scope (some r) =
    r === admin_loc || r === admin_ope || r === receiving || r === checkin

unfoldable pub can_manage_user_role : Option Role → Role → Bool
can_manage_user_role none target = false
can_manage_user_role (some actor) target =
    if actor === superadmin
    then includes staff_roles target
    else if actor === admin_loc
    then target === receiving || target === checkin
    else false

unfoldable pub can_assign_user_scope : Option Role → Role → Bool
can_assign_user_scope none target = false
can_assign_user_scope (some actor) target =
    if actor === superadmin
    then includes staff_roles target
    else if actor === admin_loc
    then target === admin_ope || target === receiving || target === checkin
    else false

unfoldable pub can_assign_business_location : Option PermissionProfile → Option ℕ → Bool
can_assign_business_location none target = false
can_assign_business_location (some actor) target =
    if actor.role === superadmin
    then true
    else is_truthy target && same actor.business_location_id target

abbrev pub active_ids : List PermissionUnit → List ℕ
active_ids units =
    map (λ (u : PermissionUnit). u.id) (select (λ (u : PermissionUnit). u.is_active) units)

abbrev pub listed : Option (List PermissionUnit) → List PermissionUnit
listed none = []
listed (some units) = units

unfoldable pub can_assign_units : Option PermissionProfile → List ℕ → Bool
can_assign_units none ids = false
can_assign_units (some actor) ids =
    if actor.role === superadmin
    then true
    else all (includes (active_ids (listed actor.manageable_units))) ids

unfoldable pub get_operation_unit_ids : Option PermissionProfile → List ℕ
get_operation_unit_ids none = []
get_operation_unit_ids (some p) = active_ids p.operation_units

-- The unit that `some` looks for.
abbrev pub is_active_unit : Option ℕ → PermissionUnit → Bool
is_active_unit i u = same (some u.id) i && u.is_active

unfoldable pub can_operate_unit : Option PermissionProfile → Option ℕ → Bool
can_operate_unit none i = false
can_operate_unit (some p) i =
    if not (is_truthy i)
    then false
    else if p.role === superadmin
    then true
    else any (is_active_unit i) p.operation_units

unfoldable pub filter_operable_units {ℓ} :
    {A : Type ℓ} → (A → ℕ) → PermissionProfile → List A → List A
filter_operable_units id p units =
    if p.role === superadmin
    then units
    else select (λ u. includes (get_operation_unit_ids (some p)) (id u)) units

unfoldable pub get_unit_access_state :
    Option PermissionProfile → Option ℕ → UnitAccessState → UnitAccessState
get_unit_access_state p i denied = if can_operate_unit p i then enabled else denied

-- permissionAssertions.ts
unfoldable pub assert_can_manage_user_role : Option PermissionProfile → Role → Result (Unit {0})
assert_can_manage_user_role actor target = do
  user ← or_throw actor unauthorized
  require (can_manage_user_role (some user.role) target) forbidden

unfoldable pub assert_can_assign_user_scope : Option PermissionProfile → Role → Result (Unit {0})
assert_can_assign_user_scope actor target = do
  user ← or_throw actor unauthorized
  require (can_assign_user_scope (some user.role) target) forbidden

unfoldable pub assert_can_assign_business_location :
    Option PermissionProfile → Option ℕ → Result (Unit {0})
assert_can_assign_business_location actor target = do
  user ← or_throw actor unauthorized
  require (can_assign_business_location (some user) target) forbidden

unfoldable pub assert_can_assign_units : Option PermissionProfile → List ℕ → Result (Unit {0})
assert_can_assign_units actor ids = do
  user ← or_throw actor unauthorized
  require (can_assign_units (some user) ids) forbidden

unfoldable pub assert_can_operate_unit : Option PermissionProfile → Option ℕ → Result (Unit {0})
assert_can_operate_unit actor i = do
  user ← or_throw actor unauthorized
  if not (role_has_unit_operation_scope (some user.role))
      then ok tt
      else (require (is_truthy i) forbidden >> require (can_operate_unit (some user) i) forbidden)

unfoldable pub assert_can_access_operational_location :
    Option PermissionProfile → Option ℕ → Result (Unit {0})
assert_can_access_operational_location actor target = do
  user ← or_throw actor unauthorized
  require (is_truthy user.business_location_id) forbidden
  require (is_truthy target) forbidden
  require (same target user.business_location_id) forbidden
