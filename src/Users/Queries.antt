-- ===== src/Users/Queries.antt =====
-- apps/oceanchat-user/src/oceanchat-user.service.ts and oceanchat-user.controller.ts: the queries that other
-- services ask. A collection is the list of its documents, or the error that the database throws. Ids and roles
-- are numbers.
use ocean_chat_private.Prelude.{
  ℕ, List, [], ◌∷◌, Option, none, some, Result, ok, err, ◌==◌, if◌then◌else◌,
}
use ocean_chat_private.Http.Filter.{Text, infrastructure, Thrown, app}
use ocean_chat_private.Rpc.Client.{unexpected_error}

-- A user or a permission, as far as the projection `{ roles: 1 }` has it.
pub record Document : Type 0 where
  pub id : ℕ
  pub roles : Option (List ℕ)

unfoldable pub find_by_id : ℕ → List Document → Option Document
find_by_id id [] = none
find_by_id id (d ∷ ds) = let rest = find_by_id id ds in if d.id == id then some d else rest

-- `user?.roles || []`
unfoldable pub roles_or_none : Option Document → List ℕ
roles_or_none none = []
roles_or_none (some d) = elim d.roles [ none ↦ [] | some roles ↦ roles ]

module _ {D : Type 0} where
  -- The `try` and `catch` that both queries share, with the text of the exception.
  unfoldable pub query_roles : Text → ℕ → Result D (List Document) → Result (Thrown D) (List ℕ)
  unfolding find_by_id roles_or_none
  query_roles text id (ok documents) = ok (roles_or_none (find_by_id id documents))
  query_roles text id (err cause) = err (app infrastructure text unexpected_error 500 (some cause))

  -- `getUserGlobalRoles`, on the users.
  unfoldable pub get_user_global_roles :
      Text → ℕ → Result D (List Document) → Result (Thrown D) (List ℕ)
  unfolding query_roles
  get_user_global_roles failed_to_fetch_global_roles user_id users =
      query_roles failed_to_fetch_global_roles user_id users

  -- `getRolesForPermission`, on the permissions.
  unfoldable pub get_roles_for_permission :
      Text → ℕ → Result D (List Document) → Result (Thrown D) (List ℕ)
  unfolding query_roles
  get_roles_for_permission failed_to_fetch_permission_roles permission_id permissions =
      query_roles failed_to_fetch_permission_roles permission_id permissions
