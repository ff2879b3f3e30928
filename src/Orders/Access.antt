-- ===== src/Orders/Access.antt =====
-- shared/authorization/order-access.util.ts
use patheya_express_platform.Common.{
  ℕ, Bool, true, ◌&&◌, Option, none, some, List, [], ◌∷◌, ◌==◌, is_id, is_some, includes, find,
  if◌then◌else◌,
}
use patheya_express_platform.Schema.{
  UserRole, user_role_eq, RestaurantStaffRole, restaurant_staff_role_eq,
}

pub record AuthenticatedUser : Type 0 where
  pub user_id : ℕ
  pub role : UserRole

-- A row of `restaurant_staff`; `active` is `status === ACTIVE`.
pub record RestaurantStaff : Type 0 where
  pub user_id : ℕ
  pub role : RestaurantStaffRole
  pub active : Bool

-- What the code reads of a restaurant: its owner, its staff, and `autoAcceptOrders` of its settings.
pub record Restaurant : Type 0 where
  pub owner_id : ℕ
  pub staff : List RestaurantStaff
  pub auto_accept_orders : Bool

pub data RestaurantAccessRole : Type 0 where
  staff_role : RestaurantStaffRole → RestaurantAccessRole
  admin_role : RestaurantAccessRole

abbrev admin_roles : List UserRole
admin_roles = UserRole.admin ∷ UserRole.super_admin ∷ []

abbrev pub is_admin : AuthenticatedUser → Bool
is_admin user = includes admin_roles user.role

abbrev restaurant_staff_roles : List UserRole
restaurant_staff_roles = UserRole.restaurant_owner ∷ UserRole.restaurant_manager ∷ []

abbrev pub is_restaurant_staff : AuthenticatedUser → Bool
is_restaurant_staff user = includes restaurant_staff_roles user.role

abbrev active_member : ℕ → RestaurantStaff → Bool
active_member user_id member = (member.user_id == user_id) && member.active

abbrev staff_role_of : Option RestaurantStaff → Option RestaurantAccessRole
staff_role_of none = none
staff_role_of (some member) = some (staff_role member.role)

abbrev member_role : Option Restaurant → AuthenticatedUser → Option RestaurantAccessRole
member_role none user = none
member_role (some r) user =
    if r.owner_id == user.user_id
    then some (staff_role RestaurantStaffRole.owner)
    else staff_role_of (find (active_member user.user_id) r.staff)

-- `getRestaurantRole`; the first argument is the restaurant that the query finds.
unfoldable pub get_restaurant_role :
    Option Restaurant → AuthenticatedUser → Option RestaurantAccessRole
get_restaurant_role found user = if is_admin user then some admin_role else member_role found user

-- `canAccessRestaurant`
unfoldable pub can_access_restaurant : Option Restaurant → AuthenticatedUser → Bool
can_access_restaurant found user = is_some (get_restaurant_role found user)

-- `canAccessOrder`, on the three ids of the order and its restaurant.
unfoldable pub can_access_order : Option Restaurant → ℕ → Option ℕ → AuthenticatedUser → Bool
can_access_order found customer_id delivery_partner_id user =
    if is_admin user
    then true
    else if customer_id == user.user_id
    then true
    else if is_id delivery_partner_id user.user_id
    then true
    else is_restaurant_staff user && can_access_restaurant found user
