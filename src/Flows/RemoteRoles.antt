-- ===== src/Flows/RemoteRoles.antt =====
-- libs/authorization/src with apps/oceanchat-api-gateway/src/common/services/rpc-role.data-source.ts: the permission
-- checks of a gateway that has nothing in its memory. Users, permissions and roles are numbers.
mod Tests
use ocean_chat_private.Prelude.{
  ℕ, ◌<◌, ◌≡◌, ◌≢◌, ◌>>=◌, refl, sym, ap, ◌∙◌, ◌↔◌, ◌⊎◌, inl, inr, Bool-cases, ltb→lt, List, [],
  Option, none, some, Bool, true, false, Result, ok, err, arith, if◌then◌else◌, lt→ltb, ltb,
}
use ocean_chat_private.Exceptions.{Exception, other, infrastructure}
use ocean_chat_private.Exceptions
use ocean_chat_private.Rpc.Client
use ocean_chat_private.Http.Filter.{Text, Thrown}
use ocean_chat_private.Rpc.Client.{
  Caught, Reply, silence, after, within, send, handle_rpc_error, handle_rpc_exception,
}
use ocean_chat_private.Rpc.Propagation.{Texts}
use ocean_chat_private.Users.Queries.{
  Document, find_by_id, roles_or_none, query_roles, get_user_global_roles, get_roles_for_permission,
}
use ocean_chat_private.Authorization.RoleCache.{
  or_empty, get_roles, after_l1, after_fetch, wrap_error,
}
use ocean_chat_private.Authorization.Lru.{get, refresh, find}
use ocean_chat_private.Authorization.Permissions.{
  RoleSource, with_scoped, get_effective_roles, has_permission,
}
use ocean_chat_private.Authorization.Permissions.Agreement.{meets}
use ocean_chat_private.Flows.RoleQueries.{
  SecondLevel, remote_roles, Obtains, remote_roles-Obtains, remote_roles-cases,
}

same_answer : {b c : Bool} → ◌≡◌ {A = Result Exception Bool} (ok b) (ok c) → b ≡ c
same_answer h = cc

module _ {D : Type 0} (exception_of : Thrown Caught → Exception) (gateway service : Texts)
    (timeout_text text text' : Text) (users permissions : Result D (List Document))
    (level_user level_permission : SecondLevel) (after_user after_permission : Option ℕ)
    (first_error : Exception → List Exception → Exception) (asked now : ℕ) where
  -- The roles that a gateway with an empty memory finds.
  abbrev pub source : RoleSource
  source = record {
    global_roles = λ user.
        remote_roles exception_of gateway service timeout_text text asked now level_user after_user
          user users;
    roles_for = λ permission.
        remote_roles exception_of gateway service timeout_text text' asked now level_permission
          after_permission permission permissions;
    scoped_roles = none;
    first_error = first_error;
  }

  -- Roles are found for the user and for the permission, and they have one in common.
  pub record Granted (user permission : ℕ) : Type 0 where
    pub held : List ℕ
    pub allowed : List ℕ
    pub of_user : Obtains level_user after_user users user held
    pub of_permission : Obtains level_permission after_permission permissions permission allowed
    pub common : meets held allowed ≡ true

  -- What `has_permission` makes of the two answers.
  abbrev checked :
      ℕ → Option ℕ → Result Exception (List ℕ) → Result Exception (List ℕ) → Result Exception Bool
  checked user scope roles allowed =
      (roles >>= λ r. with_scoped none user scope r) >>= λ us. allowed >>= λ a. ok (meets us a)

  checked-Obtains :
      (user permission : ℕ) (scope : Option ℕ) (held allowed : List ℕ)
      → Obtains level_user after_user users user held
      → Obtains level_permission after_permission permissions permission allowed
      → checked user scope (source.global_roles user) (source.roles_for permission)
        ≡ ok (meets held allowed)
  checked-Obtains user permission scope held allowed us ps =
      ap (λ r. checked user scope r (source.roles_for permission))
        (remote_roles-Obtains exception_of gateway service timeout_text text asked now user
          level_user after_user users held us)
      ∙ ap (checked user scope (ok held)) (
          remote_roles-Obtains exception_of gateway service timeout_text text' asked now permission
            level_permission after_permission permissions allowed ps)

  refused_on_error :
      (user : ℕ) (scope : Option ℕ) (roles allowed : Result Exception (List ℕ)) (e : Exception)
      → (roles ≡ err e) ⊎ (allowed ≡ err e)
      → checked user scope roles allowed ≢ ok true
  refused_on_error user scope (err x) allowed e h g = cc
  refused_on_error user scope (ok r) (err x) e h g = cc
  refused_on_error user scope (ok r) (ok a) e (inl h) g = cc
  refused_on_error user scope (ok r) (ok a) e (inr h) g = cc

  pub has_permission-Granted :
      (user permission : ℕ) (scope : Option ℕ)
      → (has_permission source (some user) (some permission) scope ≡ ok true)
        ↔ Granted user permission
  unfolding has_permission get_effective_roles
  has_permission-Granted user permission scope = (
    λ granted.
        elim (remote_roles-cases exception_of gateway service timeout_text text asked now user
          level_user after_user users) [
            | inr (e, failed) ↦ absurd (refused_on_error user scope _ _ _ (inl failed) granted)
            | inl (held, us) ↦
                elim (remote_roles-cases exception_of gateway service timeout_text text' asked now
                  permission level_permission after_permission permissions) [
                    | inr (e, failed) ↦
                        absurd (refused_on_error user scope _ _ _ (inr failed) granted)
                    | inl (allowed, ps) ↦ record {
                      held = held;
                      allowed = allowed;
                      of_user = us;
                      of_permission = ps;
                      common = same_answer (
                          sym (checked-Obtains user permission scope held allowed us ps) ∙ granted);
                    }
                  ]
          ],
    λ g.
        checked-Obtains user permission scope g.held g.allowed g.of_user g.of_permission
        ∙ ap ok g.common,
  )
