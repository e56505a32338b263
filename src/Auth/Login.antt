-- ===== src/Auth/Login.antt =====
-- apps/oceanchat-auth/src: users/users.service.ts, strategies/local.strategy.ts, common/guards/local-auth.guard.ts
-- and oceanchat-auth.controller.ts, up to the calls of oceanchat-auth.service.ts. `U` are the users that
-- the user service returns. The package passport is a parameter.
pub mod Outage
mod Tests
use ocean_chat_private.Prelude.{ℕ, [], ◌∷◌, Option, none, some, Bool, Result, ok, err, ◌>>=◌, ◌≡◌}
use ocean_chat_private.Http.Filter.{Text, domain, Thrown, app}
use ocean_chat_private.Rpc.Client.{Caught, Reply, send, unexpected_error}

-- What `passport` hands to the guard: a user, no user, or an error.
pub data Authenticated (U : Type 0) : Type 0 where
  success : U → Authenticated U
  failure : Authenticated U
  error : Thrown Caught → Authenticated U

-- The local strategy of passport: it looks for both credentials in the body of the request, asks
-- `validate`, whose outcome is given here for all credentials, and reports.
pub record Passport (U : Type 0) : Type 0 where
  pub authenticate :
      Option Text
      → Option Text
      → (Text → Text → Result (Thrown Caught) (Option U))
      → Authenticated U

-- What is relied on, where both credentials are given and not empty: an error of `validate` is reported as
-- one, no user as a failure, and a user as a success.
pub record IsPassport {U : Type 0} (P : Passport U) : Type 0 where
  pub authenticate_error :
      (u : ℕ) (us : Text) (p : ℕ) (ps : Text) (f : Text → Text → Result (Thrown Caught) (Option U))
      (e : Thrown Caught)
      → f (u ∷ us) (p ∷ ps) ≡ err e
      → P.authenticate (some (u ∷ us)) (some (p ∷ ps)) f ≡ error e
  pub authenticate_none :
      (u : ℕ) (us : Text) (p : ℕ) (ps : Text) (f : Text → Text → Result (Thrown Caught) (Option U))
      → f (u ∷ us) (p ∷ ps) ≡ ok none
      → P.authenticate (some (u ∷ us)) (some (p ∷ ps)) f ≡ failure
  pub authenticate_some :
      (u : ℕ) (us : Text) (p : ℕ) (ps : Text) (f : Text → Text → Result (Thrown Caught) (Option U))
      (user : U)
      → f (u ∷ us) (p ∷ ps) ≡ ok (some user)
      → P.authenticate (some (u ∷ us)) (some (p ∷ ps)) f ≡ success user

-- The cause that is attached to the exception of the guard.
pub data Cause : Type 0 where
  error_cause : Thrown Caught → Cause
  info_cause : Cause

-- The translated texts of the service.
pub record Texts : Type 0 where
  pub internal_server_error : Text
  pub unauthorized : Text
  pub rpc_timeout : Text

module _ (texts : Texts) {U : Type 0} where
  -- `validatePassword` of UsersService; the reply of the user service may hold null.
  unfoldable pub validate_password : Reply (Option U) → Result (Thrown Caught) (Option U)
  unfolding send
  validate_password reply =
      send texts.rpc_timeout texts.internal_server_error unexpected_error 5000 reply

  -- `validate` of LocalStrategy; `user_service` is the reply to a name and a password.
  unfoldable pub validate :
      (Text → Text → Reply (Option U)) → Text → Text → Result (Thrown Caught) (Option U)
  unfolding validate_password
  validate user_service username password = validate_password (user_service username password)

  -- `handleRequest` of LocalAuthGuard.
  unfoldable pub handle_request : Authenticated U → Result (Thrown Cause) U
  handle_request (success user) = ok user
  handle_request failure = err (app domain texts.unauthorized 10030 401 (some info_cause))
  handle_request (error e) = err (app domain texts.unauthorized 10030 401 (some (error_cause e)))

  -- The guard in front of 'auth.login'.
  unfoldable pub local_auth_guard :
      Passport U
      → (Text → Text → Reply (Option U))
      → Option Text
      → Option Text
      → Result (Thrown Cause) U
  unfolding validate handle_request
  local_auth_guard passport user_service username password =
      handle_request (passport.authenticate username password (validate user_service))

  -- The handler of 'auth.login': `service` is the login of the service for the user that the guard found.
  unfoldable pub login :
      {R : Type 0}
      → Passport U
      → (Text → Text → Reply (Option U))
      → (U → Result (Thrown Cause) R)
      → Option Text
      → Option Text
      → Result (Thrown Cause) R
  unfolding local_auth_guard
  login passport user_service service username password =
      local_auth_guard passport user_service username password >>= service

-- The handler of 'auth.token.refresh': the token of the payload, which may be missing or empty.
unfoldable pub refresh_token :
    {R : Type 0} → Text → (Text → Result (Thrown Cause) R) → Option Text → Result (Thrown Cause) R
refresh_token missing service none = err (app domain missing 99999 400 none)
refresh_token missing service (some []) = err (app domain missing 99999 400 none)
refresh_token missing service (some (c ∷ cs)) = service (c ∷ cs)
