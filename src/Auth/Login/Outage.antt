-- ===== src/Auth/Login/Outage.antt =====
-- apps/oceanchat-auth/src/common/guards/local-auth.guard.ts: what the client of a login is told.
use ocean_chat_private.Prelude.{
  ℕ, ◌≡◌, ◌≢◌, sym, ap, ◌∙◌, ◌⊎◌, inl, inr, [], ◌∷◌, Option, none, some, true, Result, ok, err,
  ◌>>=◌,
}
use ocean_chat_private.Http.Filter.{
  Text, ClientResponse, domain, Thrown, app, handle_http_exception, create_error_response,
  client_response,
}
use ocean_chat_private.Rpc.Client.{Caught, Reply, rethrown, handle_rpc_exception}
use ocean_chat_private.Rpc.Propagation
use ocean_chat_private.Rpc.Propagation.{relayed, error_propagates, rethrown-answer, or_else-full}
use ocean_chat_private.Rpc.Breaker.{is_client_error}
use ocean_chat_private.Auth.Login.{
  Passport, IsPassport, Cause, error_cause, info_cause, Texts, validate, handle_request,
  local_auth_guard, login,
}

module _ {U R : Type 0} (texts : Texts) (passport : Passport U) (law : IsPassport passport)
    (user_service : Text → Text → Reply (Option U)) (service : U → Result (Thrown Cause) R) where
  -- The answer of the gateway to an exception of the auth service.
  abbrev pub told : Propagation.Texts → Propagation.Texts → Text → ℕ → Thrown Cause → ClientResponse
  told gateway auth message code thrown =
      handle_http_exception gateway.internal_server_error gateway.system_unavailable (
        rethrown message code
          (handle_rpc_exception auth.internal_server_error auth.system_unavailable thrown))

  unauthorized_told :
      (gateway auth : Propagation.Texts) (message : Text) (code : ℕ) (cause : Cause)
      → texts.unauthorized ≢ []
      → (told gateway auth message code (app domain texts.unauthorized 10030 401 (some cause))
          ≡ record { status_code = 401; message = texts.unauthorized; error_code = 10030 })
        × (is_client_error (
              rethrown message code (
                handle_rpc_exception auth.internal_server_error auth.system_unavailable
                  (app domain texts.unauthorized 10030 401 (some cause))))
            ≡ true)
  unfolding relayed create_error_response client_response is_client_error
  unauthorized_told gateway auth message code cause full =
      let thrown = app domain texts.unauthorized 10030 401 (some cause) in
      let same = or_else-full texts.unauthorized auth.internal_server_error full in
      (
        error_propagates gateway auth message code [] thrown (λ e. full (sym same ∙ e))
            ∙ ap (λ (m : Text). record { status_code = 401; message = m; error_code = 10030 }) same,
        ap is_client_error (rethrown-answer auth message code thrown),
      )

  -- A login whose name or password is wrong and one that meets a failure of the user service, of whatever
  -- kind, are told alike: the status 401 with the code UNAUTHORIZED, which the default filter of a circuit
  -- breaker takes for an error of the client.
  pub outage_told_as_wrong_password :
      (gateway auth : Propagation.Texts) (message : Text) (code u : ℕ) (us : Text) (p : ℕ)
      (ps : Text)
      → texts.unauthorized ≢ []
      → (validate texts user_service (u ∷ us) (p ∷ ps) ≡ ok none)
        ⊎ ((e : Thrown Caught) × (validate texts user_service (u ∷ us) (p ∷ ps) ≡ err e))
      → (thrown : Thrown Cause) × (login texts passport user_service service
            (some (u ∷ us))
            (some (p ∷ ps))
          ≡ err thrown)
        × (told gateway auth message code thrown
            ≡ record { status_code = 401; message = texts.unauthorized; error_code = 10030 })
        × (is_client_error (
              rethrown message code
                (handle_rpc_exception auth.internal_server_error auth.system_unavailable thrown))
            ≡ true)
  unfolding login local_auth_guard handle_request
  outage_told_as_wrong_password gateway auth message code u us p ps full (inl wrong) = (
    app domain texts.unauthorized 10030 401 (some info_cause),
    ap (λ a. handle_request texts a >>= service)
        (law.authenticate_none u us p ps (validate texts user_service) wrong),
    (unauthorized_told gateway auth message code info_cause full).0,
    (unauthorized_told gateway auth message code info_cause full).1,
  )
  outage_told_as_wrong_password gateway auth message code u us p ps full (inr (e, fails)) = (
    app domain texts.unauthorized 10030 401 (some (error_cause e)),
    ap (λ a. handle_request texts a >>= service)
        (law.authenticate_error u us p ps (validate texts user_service) e fails),
    (unauthorized_told gateway auth message code (error_cause e) full).0,
    (unauthorized_told gateway auth message code (error_cause e) full).1,
  )
