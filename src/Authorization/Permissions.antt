-- ===== src/Authorization/Permissions.antt =====
-- libs/authorization/src/logic/permission-checker.service.ts and guards/permission.guard.ts: which
-- permissions a user has. The answers of RoleCacheService and of the scope provider during one check are
-- given, and which of several failures comes first. Users, roles, permissions and scopes are numbers; `none` stands for a missing or empty one.
pub mod Agreement
use ocean_chat_private.Prelude.{
  ℕ, ◌≡◌, List, [], ◌∷◌, ◌++◌, map, Option, none, some, Bool, true, false, Result, ok, err, ◌>>=◌,
  any, all, ◌==◌, if◌then◌else◌,
}
use ocean_chat_private.Exceptions.{Exception, infrastructure, other, failed_to_fetch_scoped_roles}

pub record RoleSource : Type 0 where
  pub global_roles : ℕ → Result Exception (List ℕ)
  pub roles_for : ℕ → Result Exception (List ℕ)
  pub scoped_roles : Option (ℕ → ℕ → Result Exception (List ℕ))
  pub first_error : Exception → List Exception → Exception

-- `roles.includes(role)` and `Set.prototype.has`.
abbrev pub includes : List ℕ → ℕ → Bool
includes roles role = any (λ r. r == role) roles

-- `[...new Set(roles)]`, without the roles already seen.
unfoldable pub unique : List ℕ → List ℕ → List ℕ
unique seen [] = []
unique seen (r ∷ rs) =
    let rest = unique seen rs in
    let more = unique (r ∷ seen) rs in if includes seen r then rest else r ∷ more

abbrev pub errors {ℓ} : {A : Type ℓ} → List (Result Exception A) → List Exception
errors [] = []
errors (ok x ∷ rs) = errors rs
errors (err e ∷ rs) = e ∷ errors rs

abbrev pub values {ℓ} : {A : Type ℓ} → List (Result Exception A) → List A
values [] = []
values (ok x ∷ rs) = x ∷ values rs
values (err e ∷ rs) = values rs

-- `Promise.all` of promises that run side by side: where some fail, the error is that of the one that fails first in
-- time, which `first` tells from the errors in their order in the list.
unfoldable pub promise_all {ℓ} :
    {A : Type ℓ}
    → (Exception → List Exception → Exception)
    → List (Result Exception A)
    → Result Exception (List A)
promise_all first rs = elim (errors rs) [ [] ↦ ok (values rs) | e ∷ es ↦ err (first e es) ]

abbrev pub merge : List ℕ → Result Exception (List ℕ) → Result Exception (List ℕ)
merge roles (ok scoped) = ok (unique [] (roles ++ scoped))
merge roles (err e) = err (infrastructure failed_to_fetch_scoped_roles 500)

abbrev pub with_scoped :
    Option (ℕ → ℕ → Result Exception (List ℕ)) → ℕ → Option ℕ → List ℕ → Result Exception (List ℕ)
with_scoped none user scope roles = ok roles
with_scoped (some provider) user none roles = ok roles
with_scoped (some provider) user (some scope) roles = merge roles (provider user scope)

module _ (source : RoleSource) where
  unfoldable pub get_effective_roles : ℕ → Option ℕ → Result Exception (List ℕ)
  get_effective_roles user scope =
      source.global_roles user >>= λ roles. with_scoped source.scoped_roles user scope roles

  unfoldable pub has_permission : Option ℕ → Option ℕ → Option ℕ → Result Exception Bool
  unfolding get_effective_roles
  has_permission none permission scope = ok false
  has_permission (some user) none scope = ok false
  has_permission (some user) (some permission) scope = do
    user_roles ← get_effective_roles user scope
    allowed ← source.roles_for permission
    ok (any (λ role. includes allowed role) user_roles)

  -- The memory check of both, on the roles allowed for each permission.
  abbrev pub is_allowed : List ℕ → List ℕ → Bool
  is_allowed user_roles allowed = any (λ role. includes user_roles role) allowed

  abbrev pub unless_no_roles : List ℕ → Bool → Bool
  unless_no_roles [] b = false
  unless_no_roles (r ∷ rs) b = b

  -- The roles of the user and, for each permission, those that may do it, fetched side by side.
  unfoldable pub fetch_all : ℕ → List ℕ → Option ℕ → Result Exception (List (List ℕ))
  unfolding get_effective_roles promise_all
  fetch_all user permissions scope =
      promise_all source.first_error
        (get_effective_roles user scope ∷ map source.roles_for permissions)

  -- The checks of `[userRoles, ...permissionsRolesList]`.
  abbrev pub every_allowed : List (List ℕ) → Bool
  every_allowed [] = false
  every_allowed (user_roles ∷ allowed) =
      unless_no_roles user_roles (all (λ a. is_allowed user_roles a) allowed)

  abbrev pub some_allowed : List (List ℕ) → Bool
  some_allowed [] = false
  some_allowed (user_roles ∷ allowed) =
      unless_no_roles user_roles (any (λ a. is_allowed user_roles a) allowed)

  unfoldable pub has_all_permissions : Option ℕ → List ℕ → Option ℕ → Result Exception Bool
  unfolding fetch_all
  has_all_permissions none permissions scope = ok false
  has_all_permissions (some user) [] scope = ok false
  has_all_permissions (some user) (p ∷ ps) scope = do
    lists ← fetch_all user (p ∷ ps) scope
    ok (every_allowed lists)

  unfoldable pub has_at_least_one_permission : Option ℕ → List ℕ → Option ℕ → Result Exception Bool
  unfolding fetch_all
  has_at_least_one_permission none permissions scope = ok false
  has_at_least_one_permission (some user) [] scope = ok false
  has_at_least_one_permission (some user) (p ∷ ps) scope = do
    lists ← fetch_all user (p ∷ ps) scope
    ok (some_allowed lists)

-- A property of a request: not there, or there with a value, which may be empty.
abbrev pub Property : Type 0
Property = Option (Option ℕ)

-- The context of a request. `user` is `none` where no guard has set it.
pub data Context : Type 0 where
  http : (user : Option (Option ℕ)) (query_rid params_rid body_rid : Property) → Context
  rpc : (user_id own_id given_id : Option ℕ) (rid : Option ℕ) → Context
  other_type : Context

-- `||`
abbrev pub or_else : Option ℕ → Option ℕ → Option ℕ
or_else none b = b
or_else (some a) b = some a

-- A later object of a spread overrides an earlier one.
abbrev pub spread : Property → Property → Property
spread earlier none = earlier
spread earlier (some value) = some value

abbrev pub value_of : Property → Option ℕ
value_of none = none
value_of (some value) = value

-- The user and the scope. Reading `sub` of a user that is not there throws.
unfoldable pub extract_context : Context → Result Exception (Option ℕ × Option ℕ)
extract_context (http none query params body) = err other
extract_context (http (some user) query params body) =
    ok (user, value_of (spread (spread query params) body))
extract_context (rpc user_id own_id given_id rid) =
    ok (or_else user_id (or_else own_id given_id), rid)
extract_context other_type = ok (none, none)

-- `canActivate`: `required` is what the decorator asks for.
unfoldable pub can_activate : RoleSource → List ℕ → Context → Result Exception Bool
unfolding has_all_permissions extract_context
can_activate source [] context = ok true
can_activate source (p ∷ ps) context = do
  extracted ← extract_context context
  has_all_permissions source extracted.0 (p ∷ ps) extracted.1
