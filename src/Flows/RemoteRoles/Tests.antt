-- ===== src/Flows/RemoteRoles/Tests.antt =====
-- Permission checks over the user service, for the user 7 with the role 1 and the permission 3 of the roles 1 and 2.
use ocean_chat_private.Prelude.{
  ℕ, ◌≡◌, ◌↔◌, refl, List, [], ◌∷◌, none, some, true, Result, ok, arith,
}
use ocean_chat_private.Exceptions.{Exception, other}
use ocean_chat_private.Http.Filter.{Thrown}
use ocean_chat_private.Rpc.Client.{Caught}
use ocean_chat_private.Rpc.Propagation.{Texts}
use ocean_chat_private.Users.Queries.{Document, find_by_id, roles_or_none}
use ocean_chat_private.Authorization.Permissions.{RoleSource, has_permission}
use ocean_chat_private.Flows.RoleQueries.{
  lock_acquired, lock_not_acquired, from_service, from_other_caller,
}
use ocean_chat_private.Flows.RemoteRoles.{source, Granted, has_permission-Granted}

abbrev texts : Texts
texts = record { internal_server_error = 73 ∷ []; system_unavailable = 83 ∷ [] }

abbrev users : Result ℕ (List Document)
users = ok (record { id = 7; roles = some (1 ∷ []) } ∷ [])

abbrev permissions : Result ℕ (List Document)
permissions = ok (record { id = 3; roles = some (2 ∷ 1 ∷ []) } ∷ [])

abbrev exception_of : Thrown Caught → Exception
exception_of e = other

-- The roles of the user are fetched, and those of the permission are cached by another pod.
abbrev flow : RoleSource
flow =
    source exception_of texts texts [] [] [] users permissions (lock_acquired none)
      (lock_not_acquired (some (2 ∷ 1 ∷ []))) (some 20) none (λ e es. e) 0 5019

has_permission-Granted_example :
    (has_permission flow (some 7) (some 3) none ≡ ok true)
    ↔ Granted exception_of texts texts [] [] [] users permissions
        (lock_acquired none)
        (lock_not_acquired (some (2 ∷ 1 ∷ [])))
        (some 20)
        none
        (λ e es. e)
        0
        5019
        7
        3
has_permission-Granted_example =
    has_permission-Granted exception_of texts texts [] [] [] users permissions (lock_acquired none)
      (lock_not_acquired (some (2 ∷ 1 ∷ []))) (some 20) none (λ e es. e) 0 5019 7 3 none

granted :
    Granted exception_of texts texts [] [] [] users permissions
      (lock_acquired none)
      (lock_not_acquired (some (2 ∷ 1 ∷ [])))
      (some 20)
      none
      (λ e es. e)
      0
      5019
      7
      3
unfolding find_by_id roles_or_none
granted = record {
  held = 1 ∷ [];
  allowed = 2 ∷ 1 ∷ [];
  of_user = from_service refl (record {
    time = 20;
    documents = record { id = 7; roles = some (1 ∷ []) } ∷ [];
    arrives_then = refl;
    in_time = omega arith;
    read = refl;
  });
  of_permission = from_other_caller (some (2 ∷ 1 ∷ [])) refl;
  common = refl;
}

common_role_grants : has_permission flow (some 7) (some 3) none ≡ ok true
common_role_grants = has_permission-Granted_example.1 granted
