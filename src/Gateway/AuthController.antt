-- ===== src/Gateway/AuthController.antt =====
-- apps/oceanchat-api-gateway/src/modules/auth/auth.controller.ts: login, registration, refresh and logout of
-- clients, by calls of the other services behind circuit breakers. What a call of a service comes to is
-- an argument. `U` are users, `U'` the users that a registration returns.
pub mod Outcomes
mod Tests
use ocean_chat_private.Prelude.{
  ℕ, List, [], ◌∷◌, Option, none, some, Bool, true, Result, ok, err, ◌>>=◌, ltb, if◌then◌else◌,
}
use ocean_chat_private.Http.Filter.{domain, Thrown, app}
use ocean_chat_private.Gateway.Cookies.{Text, refresh_token_name, refresh_token_of}
use ocean_chat_private.Rpc.Client.{Caught, Reply, silence, after, send, unexpected_error}
use ocean_chat_private.Rpc.Breaker.{Overrides, Attempt, settles, Opossum, Breakers, fire}

-- The options of the refresh token's cookie.
pub data SameSite : Type 0 where
  lax : SameSite

pub record CookieOptions : Type 0 where
  pub http_only : Bool
  pub secure : Bool
  pub same_site : SameSite
  pub path : Text
  pub max_age : Option ℕ

-- The calls of `res.cookie` and `res.clearCookie` with their arguments, newest first. Express puts the value through
-- encodeURIComponent into its header, and the client sends that back.
pub data SetCookie : Type 0 where
  cookie : (name value : Text) (options : CookieOptions) → SetCookie
  clear_cookie : (name : Text) (options : CookieOptions) → SetCookie

abbrev pub Response : Type 0
Response = List SetCookie

pub record LoginResult (U : Type 0) : Type 0 where
  pub access_token : Text
  pub refresh_token : Text
  pub user : U

pub record RefreshTokenResult : Type 0 where
  pub access_token : Text
  pub refresh_token : Text

-- The translated texts that the controller and its circuit breakers use.
pub record Texts : Type 0 where
  pub internal_server_error : Text
  pub registration_failed : Text
  pub refreshtoken_error : Text
  pub unauthorized : Text
  pub service_unavailable : Text
  pub rpc_timeout : Text
  pub breaker_timeout : Text

-- The time after which a call with the limit of 5 seconds has settled.
abbrev pub settled_at {ℓ} : {A : Type ℓ} → ℕ → Reply A → ℕ
settled_at limit silence = limit
settled_at limit (after t answer) = if ltb t limit then t else limit

-- '/auth'
abbrev pub auth_path : Text
auth_path = 47 ∷ 97 ∷ 117 ∷ 116 ∷ 104 ∷ []

-- 'auth.login', 'user.create', 'auth.token.refresh', 'auth.logout'
abbrev pub auth_login : Text
auth_login = 97 ∷ 117 ∷ 116 ∷ 104 ∷ 46 ∷ 108 ∷ 111 ∷ 103 ∷ 105 ∷ 110 ∷ []

abbrev pub user_create : Text
user_create = 117 ∷ 115 ∷ 101 ∷ 114 ∷ 46 ∷ 99 ∷ 114 ∷ 101 ∷ 97 ∷ 116 ∷ 101 ∷ []

abbrev pub auth_token_refresh : Text
auth_token_refresh =
    97 ∷ 117 ∷ 116 ∷ 104 ∷ 46 ∷ 116 ∷ 111 ∷ 107 ∷ 101 ∷ 110 ∷ 46 ∷ 114 ∷ 101 ∷ 102 ∷ 114 ∷ 101 ∷ 115
    ∷ 104 ∷ []

abbrev pub auth_logout : Text
auth_logout = 97 ∷ 117 ∷ 116 ∷ 104 ∷ 46 ∷ 108 ∷ 111 ∷ 103 ∷ 111 ∷ 117 ∷ 116 ∷ []

-- `{ timeout: 6000 }`, and no options.
abbrev pub six_seconds : Overrides
six_seconds = record {
  timeout = some 6000;
  error_threshold_percentage = none;
  reset_timeout = none;
  error_filter = none;
}

abbrev pub no_options : Overrides
no_options = record {
  timeout = none;
  error_threshold_percentage = none;
  reset_timeout = none;
  error_filter = none;
}

-- ErrorCodes.CREATION_ERROR and ErrorCodes.TOKEN_REFRESH_ERROR.
abbrev pub creation_error : ℕ
creation_error = 10022

abbrev pub token_refresh_error : ℕ
token_refresh_error = 10032

module _ (O : Opossum) (texts : Texts) (production : Bool) (refresh_expires_in : ℕ) where
  abbrev pub Circuits : Type 0
  Circuits = Breakers O texts.service_unavailable texts.breaker_timeout

  -- A call with a limit of 5 seconds behind the breaker of its name, with the text and the code of the
  -- exception that stands for an error that is no error response.
  unfoldable pub call :
      {A : Type 0}
      → Text
      → Overrides
      → Text
      → ℕ
      → ℕ
      → Reply A
      → Circuits
      → Circuits × Result (Thrown Caught) A
  unfolding send fire
  call name options message code now reply circuits =
      fire O texts.service_unavailable texts.breaker_timeout name options now
        (settles (settled_at 5000 reply) (send texts.rpc_timeout message code 5000 reply)) circuits

  -- The cookie of the refresh token, and its removal.
  abbrev pub refresh_cookie : Text → SetCookie
  refresh_cookie token = cookie refresh_token_name token (record {
    http_only = true;
    secure = production;
    same_site = lax;
    path = auth_path;
    max_age = some refresh_expires_in;
  })

  abbrev pub clear_refresh_cookie : SetCookie
  clear_refresh_cookie = clear_cookie refresh_token_name (record {
    http_only = true;
    secure = production;
    same_site = lax;
    path = auth_path;
    max_age = none;
  })

  module _ {U : Type 0} where
    -- What `login` does once the call has returned or thrown.
    abbrev pub logged_in :
        Response
        → Result (Thrown Caught) (LoginResult U)
        → Response × Result (Thrown Caught) (Text × U)
    logged_in res (ok result) =
        (refresh_cookie result.refresh_token ∷ res, ok (result.access_token, result.user))
    logged_in res (err e) = (res, err e)

    -- `login`.
    unfoldable pub login :
        ℕ
        → Reply (LoginResult U)
        → Circuits
        → Response
        → Circuits × (Response × Result (Thrown Caught) (Text × U))
    unfolding call
    login now reply circuits res =
        let (circuits', result) =
          call auth_login six_seconds texts.internal_server_error unexpected_error now reply
            circuits in
        (circuits', logged_in res result)

    -- `register`.
    unfoldable pub register : ℕ → Reply U → Circuits → Circuits × Result (Thrown Caught) U
    unfolding call
    register now reply circuits =
        call user_create six_seconds texts.registration_failed creation_error now reply circuits

  abbrev pub refreshed :
      Response → Result (Thrown Caught) RefreshTokenResult → Response × Result (Thrown Caught) Text
  refreshed res (ok result) = (refresh_cookie result.refresh_token ∷ res, ok result.access_token)
  refreshed res (err e) = (res, err e)

  -- `refresh` once the token is known; `auth` is the answer of the auth service to a token.
  unfoldable pub refresh_with :
      ℕ
      → (Text → Reply RefreshTokenResult)
      → Circuits
      → Response
      → Option Text
      → Circuits × (Response × Result (Thrown Caught) Text)
  unfolding call
  refresh_with now auth circuits res none =
      (circuits, (res, err (app domain texts.unauthorized 10030 401 none)))
  refresh_with now auth circuits res (some token) =
      let (circuits', result) =
        call auth_token_refresh six_seconds texts.refreshtoken_error token_refresh_error now
          (auth token) circuits in
      (circuits', refreshed res result)

  -- `refresh`: the `Cookie` header of the request, and the token of its body.
  unfoldable pub refresh :
      ℕ
      → (Text → Reply RefreshTokenResult)
      → Option Text
      → Option Text
      → Circuits
      → Response
      → Circuits × (Response × Result (Thrown Caught) Text)
  unfolding refresh_with refresh_token_of
  refresh now auth header body circuits res =
      refresh_with now auth circuits res (refresh_token_of header body)

  abbrev pub logged_out :
      Response → Result (Thrown Caught) ℕ → Response × Result (Thrown Caught) (Unit {0})
  logged_out res (ok n) = (clear_refresh_cookie ∷ res, ok tt)
  logged_out res (err e) = (res, err e)

  -- `logout`.
  unfoldable pub logout :
      ℕ → Reply ℕ → Circuits → Response → Circuits × (Response × Result (Thrown Caught) (Unit {0}))
  unfolding call
  logout now reply circuits res =
      let (circuits', result) =
        call auth_logout no_options texts.internal_server_error unexpected_error now reply
          circuits in
      (circuits', logged_out res result)
