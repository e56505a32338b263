-- ===== src/Gateway/UsersController.antt =====
-- apps/oceanchat-api-gateway/src/modules/users/users.controller.ts: the profile of the user at hand. `U` are the
-- profiles.
pub mod Profile
use ocean_chat_private.Prelude.{ℕ, [], ◌∷◌, Option, none, some, Result, ok, err}
use ocean_chat_private.Http.Filter.{Text, domain, Thrown, app}
use ocean_chat_private.Rpc.Client.{Caught, Reply, within, rethrown, unexpected_error}
use ocean_chat_private.Rpc.Breaker.{Overrides, settles, Opossum, Breakers, fire}
use ocean_chat_private.Gateway.AuthController.{settled_at}

pub record Texts : Type 0 where
  pub user_not_found : Text
  pub internal_server_error : Text
  pub service_unavailable : Text
  pub rpc_timeout : Text
  pub breaker_timeout : Text

-- 'users.me'
abbrev pub users_me : Text
users_me = 117 ∷ 115 ∷ 101 ∷ 114 ∷ 115 ∷ 46 ∷ 109 ∷ 101 ∷ []

-- `{ timeout: 10000 }`
abbrev pub ten_seconds : Overrides
ten_seconds = record {
  timeout = some 10000;
  error_threshold_percentage = none;
  reset_timeout = none;
  error_filter = none;
}

module _ (O : Opossum) (texts : Texts) {U : Type 0} where
  -- The `map` and the `catchError` behind the timeout: a profile that is null throws an application
  -- exception, which `catchError` throws again; every other error is one of the call.
  unfoldable pub profile_of : Result Caught (Option U) → Result (Thrown Caught) U
  unfolding rethrown
  profile_of (ok (some profile)) = ok profile
  profile_of (ok none) = err (app domain texts.user_not_found 10021 404 none)
  profile_of (err e) = err (rethrown texts.internal_server_error unexpected_error e)

  -- `getMyProfile`; `reply` is that of 'user.query.profile' for the user's id.
  unfoldable pub get_my_profile :
      ℕ
      → Reply (Option U)
      → Breakers O texts.service_unavailable texts.breaker_timeout
      → Breakers O texts.service_unavailable texts.breaker_timeout × Result (Thrown Caught) U
  unfolding profile_of within fire
  get_my_profile now reply circuits =
      fire O texts.service_unavailable texts.breaker_timeout users_me ten_seconds now
        (settles (settled_at 9000 reply) (profile_of (within texts.rpc_timeout 9000 reply)))
        circuits
