-- ===== src/Authorization/Catalogue/Rule.antt =====
-- libs/authorization/src/constants: what holds of every permission, and the rule that permission-ids.ts states.
use ocean_chat_private.Prelude.{
  ◌≡◌, refl, List, [], Option, none, some, Bool, true, false, ◌==◌, ◌||◌, not, any,
}
use ocean_chat_private.Authorization.Catalogue.{
  PermissionId, access_permissions, Role, admin, Scope, users, subscriptions, PermissionDefinition,
  default_roles, permissions, permission_number, role_number, definition_of, scope_of,
}

abbrev IsDefined : PermissionId → Type 0
IsDefined p = (d : PermissionDefinition) × (definition_of p permissions ≡ some d) × (d.id ≡ p)

-- Every constant of `PermissionId` has a definition, and it is its own.
pub every_permission-IsDefined : (p : PermissionId) → IsDefined p
unfolding definition_of permissions permission_number
every_permission-IsDefined p = elim p as IsDefined [
  | access_permissions ↦ (_, refl, refl)
  | _ ↦ (_, refl, refl)
]

abbrev HasScope : Role → Type 0
HasScope r = (s : Scope) × (scope_of r default_roles ≡ some s)

-- Every role that a definition names is one of the default roles.
pub every_role_known : (r : Role) → HasScope r
unfolding scope_of default_roles role_number
every_role_known r = elim r as HasScope [ admin ↦ (_, refl) | _ ↦ (_, refl) ]

-- The roles that have a permission, and whether a role is one within a room.
abbrev pub roles_of : Option PermissionDefinition → List Role
roles_of none = []
roles_of (some d) = d.roles

abbrev is_subscription : Option Scope → Bool
is_subscription (some subscriptions) = true
is_subscription (some users) = false
is_subscription none = false

unfoldable pub is_scoped : Role → Bool
unfolding scope_of default_roles role_number
is_scoped r = is_subscription (scope_of r default_roles)

abbrev is_admin : Role → Bool
is_admin r = role_number r == role_number admin

abbrev Overlaps : PermissionId → Type 0
Overlaps p =
    (not (any is_scoped (roles_of (definition_of p permissions)))
      || any is_admin (roles_of (definition_of p permissions)))
    ≡ true

overlaps : (p : PermissionId) → Overlaps p
unfolding definition_of permissions permission_number is_scoped role_number
overlaps p = elim p as Overlaps [ access_permissions ↦ refl | _ ↦ refl ]

implied : (b c : Bool) → (not b || c) ≡ true → b ≡ true → c ≡ true
implied true c h g = h
implied false c h g = cc

-- Every permission that some role within a room has, the global role admin has as well, so that each of them
-- belongs to both contexts.
pub scoped_are_global_too :
    (p : PermissionId)
    → any is_scoped (roles_of (definition_of p permissions)) ≡ true
    → any is_admin (roles_of (definition_of p permissions)) ≡ true
scoped_are_global_too p h = implied _ _ (overlaps p) h
