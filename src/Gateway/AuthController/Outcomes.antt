-- ===== src/Gateway/AuthController/Outcomes.antt =====
-- apps/oceanchat-api-gateway/src/modules/auth/auth.controller.ts: what a client gets for what the other services
-- answer.
use ocean_chat_private.Prelude.{
  ℕ, ◌<◌, ◌≡◌, ◌≢◌, ◌==◌, ◌&&◌, ◌||◌, leb, any, true, refl, sym, ap, ◌∙◌, List, [], ◌∷◌, ◌++◌,
  Option, some, Bool, Result, ok, err, All, lt→ltb,
}
use ocean_chat_private.Http.Filter.{Thrown, handle_http_exception}
use ocean_chat_private.Gateway.Cookies.{Text, refresh_token_name, refresh_token_of}
use ocean_chat_private.Gateway.Cookies.RoundTrip.{
  print_cookies, AreTokens, IsOther, cookie_before_body,
}
use ocean_chat_private.Rpc.Client.{
  Caught, Reply, after, send, within, rethrown, handle_rpc_exception, unexpected_error,
}
use ocean_chat_private.Rpc.Propagation
use ocean_chat_private.Rpc.Propagation.{seen_at, relayed, error_propagates}
use ocean_chat_private.Rpc.Breaker.{
  Overrides, Opossum, IsOpossum, breaker_of, caught, fire, settles,
}
use ocean_chat_private.Gateway.AuthController.{
  Response, LoginResult, RefreshTokenResult, Texts, auth_login, auth_token_refresh, auth_logout,
  six_seconds, no_options, token_refresh_error, Circuits, call, refresh_cookie, logged_in, login,
  refreshed, refresh_with, refresh, logged_out, logout, settled_at,
}

-- The client is told what the service made of an error, and the cookies of the response are as before.
unfoldable pub Told :
    {A : Type 0} {D : Type 0}
    → Propagation.Texts
    → Propagation.Texts
    → Thrown D
    → Response
    → Response × Result (Thrown Caught) A
    → Type 0
Told gateway service thrown res outcome =
    (e : Thrown Caught) × (outcome ≡ (res, err e))
    × (handle_http_exception gateway.internal_server_error gateway.system_unavailable e
        ≡ seen_at service thrown)

-- The characters that encodeURIComponent leaves as they are: letters, digits and - _ . ! ~ * ' ( ).
abbrev pub is_unreserved : ℕ → Bool
is_unreserved c =
    (leb 97 c && leb c 122)
    || ((leb 65 c && leb c 90)
        || ((leb 48 c && leb c 57)
            || any (λ x. x == c) (45 ∷ 95 ∷ 46 ∷ 33 ∷ 126 ∷ 42 ∷ 39 ∷ 40 ∷ 41 ∷ [])))

abbrev pub IsUnreserved : ℕ → Type 0
IsUnreserved c = is_unreserved c ≡ true

module _ (O : Opossum) (law : IsOpossum O) (texts : Texts) (production : Bool)
    (refresh_expires_in : ℕ) where
  -- The breaker that a call under a name fires is closed, and waits longer than `t`.
  unfoldable pub Lets :
      Text → Overrides → ℕ → Circuits O texts production refresh_expires_in → Type 0
  Lets name options t circuits =
      let b = breaker_of O texts.service_unavailable texts.breaker_timeout name options circuits in
      O.IsClosed b × (t < (O.options_of b).timeout)

  call-answered :
      {A : Type 0} (name : Text) (options : Overrides) (message : Text) (code now t : ℕ)
      (answer : Result Caught A) (circuits : Circuits O texts production refresh_expires_in)
      → Lets name options t circuits
      → t < 5000
      → (call O texts production refresh_expires_in name options message code now
          (after t answer)
          circuits).1
        ≡ send texts.rpc_timeout message code 5000 (after t answer)
  unfolding Lets call fire
  call-answered {A} name options message code now t answer circuits (closed, patient) soon =
      let b = breaker_of O texts.service_unavailable texts.breaker_timeout name options circuits in
      let result = send texts.rpc_timeout message code 5000 (after t answer) in
      let in_time : settled_at 5000 (after t answer) ≡ t = rw (lt→ltb t 5000 soon) refl in
      ap
        (λ (d : ℕ).
          caught O texts.service_unavailable texts.breaker_timeout
            (O.fire A now (settles d result) b).1)
        in_time
      ∙ ap (caught O texts.service_unavailable texts.breaker_timeout)
          (law.closed_passes A now t result b closed patient)

  -- An error that a service answers with, in time.
  call-refused :
      {A D : Type 0} (service : Propagation.Texts) (thrown : Thrown D) (name : Text)
      (options : Overrides) (message : Text) (code now t : ℕ)
      (circuits : Circuits O texts production refresh_expires_in)
      → Lets name options t circuits
      → t < 5000
      → (call O texts production refresh_expires_in {A = A} name options message code now
          (after t (
            err (
              handle_rpc_exception service.internal_server_error service.system_unavailable
                thrown)))
          circuits).1
        ≡ err (
            rethrown message code (
              handle_rpc_exception service.internal_server_error service.system_unavailable thrown))
  unfolding send within
  call-refused {A} service thrown name options message code now t circuits lets soon =
      call-answered {A = A} name options message code now t _ circuits lets soon
      ∙ rw (lt→ltb t 5000 soon)

  -- The error of a service that answers in time reaches the client of a login, of a refresh and of a logout as
  -- the service told it, and leaves the cookies of the response as they were, if the breaker is closed and
  -- waits long enough and the text is not empty.
  pub error_reaches_client :
      {D : Type 0} (U : Type 0) (gateway service : Propagation.Texts) (thrown : Thrown D)
      (now t : ℕ) (header body : Option Text) (token : Text)
      (circuits : Circuits O texts production refresh_expires_in) (res : Response)
      (auth : Text → Reply RefreshTokenResult)
      → t < 5000
      → (seen_at service thrown).message ≢ []
      → refresh_token_of header body ≡ some token
      → auth token
        ≡ after t (
            err (
              handle_rpc_exception service.internal_server_error service.system_unavailable thrown))
      → Lets auth_login six_seconds t circuits
      → Lets auth_token_refresh six_seconds t circuits
      → Lets auth_logout no_options t circuits
      → Told gateway service thrown res
          (login O texts production refresh_expires_in {U = U} now
            (after t (
              err (
                handle_rpc_exception service.internal_server_error service.system_unavailable
                  thrown)))
            circuits
            res).1
        × Told gateway service thrown res
            (refresh O texts production refresh_expires_in now auth header body circuits res).1
        × Told gateway service thrown res
            (logout O texts production refresh_expires_in now
              (after t (
                err (
                  handle_rpc_exception service.internal_server_error service.system_unavailable
                    thrown)))
              circuits
              res).1
  unfolding login refresh refresh_with logout relayed Told
  error_reaches_client {D} U gateway service thrown now t header body token circuits res auth soon
        full carries asked lets_login lets_refresh lets_logout =
      let answer =
        handle_rpc_exception service.internal_server_error service.system_unavailable thrown in
      let refused =
        call-refused {A = LoginResult U} service thrown auth_login six_seconds
          texts.internal_server_error unexpected_error now t circuits lets_login soon in
      let refused_refresh =
        call-refused {A = RefreshTokenResult} service thrown auth_token_refresh six_seconds
          texts.refreshtoken_error token_refresh_error now t circuits lets_refresh soon in
      let refused_logout =
        call-refused {A = ℕ} service thrown auth_logout no_options texts.internal_server_error
          unexpected_error now t circuits lets_logout soon in
      (
        (
          rethrown texts.internal_server_error unexpected_error answer,
          ap (logged_in O texts production refresh_expires_in res) refused,
          error_propagates gateway service texts.internal_server_error unexpected_error [] thrown
              full,
        ),
        (
          rethrown texts.refreshtoken_error token_refresh_error answer,
          ap (λ o. (refresh_with O texts production refresh_expires_in now auth circuits res o).1)
                carries
              ∙ ap
                  (λ r.
                    refreshed O texts production refresh_expires_in res
                      (call O texts production refresh_expires_in auth_token_refresh six_seconds
                        texts.refreshtoken_error token_refresh_error now r circuits).1)
                  asked
              ∙ ap (refreshed O texts production refresh_expires_in res) refused_refresh,
          error_propagates gateway service texts.refreshtoken_error token_refresh_error [] thrown
              full,
        ),
        (
          rethrown texts.internal_server_error unexpected_error answer,
          ap (logged_out O texts production refresh_expires_in res) refused_logout,
          error_propagates gateway service texts.internal_server_error unexpected_error [] thrown
              full,
        ),
      )

  -- The refresh token of a login that succeeds goes into a cookie. A later refresh whose header lists that cookie as
  -- express encodes it, and no later one of its name, presents this token to the auth service, whatever its body
  -- holds: when that answers in time with a new pair, the client gets the new access token and the new refresh
  -- token goes into the cookie. The breakers of both calls are closed and wait long enough, the names and values have
  -- no separators, and the token is not empty and has only characters that encodeURIComponent leaves as they are.
  pub login_cookie_refreshes :
      {U : Type 0} (encode : Text → Text) (now t later t' : ℕ) (result : LoginResult U)
      (new : RefreshTokenResult)
      (circuits circuits' : Circuits O texts production refresh_expires_in) (res res' : Response)
      (before after_it : List (Text × Text)) (body : Option Text)
      (auth : Text → Reply RefreshTokenResult)
      → ((x : Text) → All IsUnreserved x → encode x ≡ x)
      → All IsUnreserved result.refresh_token
      → t < 5000
      → t' < 5000
      → Lets auth_login six_seconds t circuits
      → Lets auth_token_refresh six_seconds t' circuits'
      → AreTokens (before ++ (refresh_token_name, encode result.refresh_token) ∷ after_it)
      → All IsOther after_it
      → result.refresh_token ≢ []
      → auth result.refresh_token ≡ after t' (ok new)
      → ((login O texts production refresh_expires_in now (after t (ok result)) circuits res).1 ≡ (
        refresh_cookie O texts production refresh_expires_in result.refresh_token ∷ res,
        ok (result.access_token, result.user),
      ))
        × ((refresh O texts production refresh_expires_in later auth
              (some (
                print_cookies
                  (before ++ (refresh_token_name, encode result.refresh_token) ∷ after_it)))
              body
              circuits'
              res').1
            ≡ (
              refresh_cookie O texts production refresh_expires_in new.refresh_token ∷ res',
              ok new.access_token,
            ))
  unfolding login refresh refresh_with send within
  login_cookie_refreshes {U} encode now t later t' result new circuits circuits' res res' before
        after_it body auth keeps plain soon soon' lets lets' tokens others full answers =
      let sent : send texts.rpc_timeout texts.internal_server_error unexpected_error 5000
            (after t (ok result))
          ≡ ok result =
        rw (lt→ltb t 5000 soon) refl in
      let sent' : send texts.rpc_timeout texts.refreshtoken_error token_refresh_error 5000
            (after t' (ok new))
          ≡ ok new =
        rw (lt→ltb t' 5000 soon') refl in
      let same = keeps result.refresh_token plain in
      let carries =
        cookie_before_body before (encode result.refresh_token) after_it body tokens others
          (λ e. full (sym same ∙ e))
        ∙ ap some same in
      (
        ap (logged_in O texts production refresh_expires_in res) (
            call-answered {A = LoginResult U} auth_login six_seconds texts.internal_server_error
              unexpected_error now t (ok result) circuits lets soon
            ∙ sent),
        ap (λ o. (refresh_with O texts production refresh_expires_in later auth circuits' res' o).1)
              carries
            ∙ ap
                (λ r.
                  refreshed O texts production refresh_expires_in res'
                    (call O texts production refresh_expires_in auth_token_refresh six_seconds
                      texts.refreshtoken_error token_refresh_error later r circuits').1)
                answers
            ∙ ap (refreshed O texts production refresh_expires_in res') (
                call-answered {A = RefreshTokenResult} auth_token_refresh six_seconds
                  texts.refreshtoken_error token_refresh_error later t' (ok new) circuits' lets'
                  soon'
                ∙ sent'),
      )
