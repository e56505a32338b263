-- ===== src/Gateway/UsersController/Profile.antt =====
-- apps/oceanchat-api-gateway/src/modules/users/users.controller.ts: all outcomes behind a closed breaker.
use ocean_chat_private.Prelude.{
  ℕ, ◌≤◌, ◌<◌, ◌≡◌, ◌≢◌, refl, sym, ap, subst, [], Option, none, some, Result, ok, err, arith,
  false,
}
use ocean_chat_private.Http.Filter.{Text, Thrown, create_error_response, client_response}
use ocean_chat_private.Rpc.Client.{
  Caught, Reply, silence, after, within, rethrown, is_error_response_dto,
}
use ocean_chat_private.Rpc.Propagation
use ocean_chat_private.Rpc.Propagation.{seen_at, or_else-full}
use ocean_chat_private.Rpc.Breaker.{Opossum, IsOpossum, Breakers, breaker_of, caught, fire}
use ocean_chat_private.Gateway.AuthController.{settled_at}
use ocean_chat_private.Gateway.UsersController.{
  Texts, users_me, ten_seconds, profile_of, get_my_profile,
}

settled_at-le : {U : Type 0} (reply : Reply U) → settled_at 9000 reply ≤ 9000
settled_at-le silence = omega arith
settled_at-le (after t answer) = ground arith

module _ (O : Opossum) (law : IsOpossum O) (texts : Texts) {U : Type 0}
    (circuits : Breakers O texts.service_unavailable texts.breaker_timeout) where
  passed_on :
      (now : ℕ) (reply : Reply (Option U))
      → O.IsClosed (
          breaker_of O texts.service_unavailable texts.breaker_timeout users_me ten_seconds
            circuits)
      → 9000
        < (O.options_of (
            breaker_of O texts.service_unavailable texts.breaker_timeout users_me ten_seconds
              circuits)).timeout
      → (get_my_profile O texts now reply circuits).1
        ≡ profile_of O texts (within texts.rpc_timeout 9000 reply)
  unfolding get_my_profile fire caught
  passed_on now reply closed patient =
      ap (caught O texts.service_unavailable texts.breaker_timeout) (
        law.closed_passes U now (settled_at 9000 reply)
          (profile_of O texts (within texts.rpc_timeout 9000 reply))
          (breaker_of O texts.service_unavailable texts.breaker_timeout users_me ten_seconds
            circuits)
          closed (omega (arith, settled_at-le reply)))

  -- What the client sees of what came of the call: the profile; 404 with USER_NOT_FOUND where there is none; and
  -- 500 with SERVICE_ERROR where the call failed with anything but an error response.
  unfoldable pub Answers :
      Propagation.Texts → Result Caught (Option U) → Result (Thrown Caught) U → Type 0
  Answers gateway (ok (some profile)) r = r ≡ ok profile
  Answers gateway (ok none) r =
      (e : Thrown Caught) × (r ≡ err e)
      × (seen_at gateway e
          ≡ record { status_code = 404; message = texts.user_not_found; error_code = 10021 })
  Answers gateway (err c) r =
      (e : Thrown Caught) × (r ≡ err e)
      × (is_error_response_dto c ≡ false
          → seen_at gateway e ≡ record {
            status_code = 500;
            message = gateway.system_unavailable;
            error_code = 50300;
          })

  profile_of-Answers :
      (gateway : Propagation.Texts) (r : Result Caught (Option U))
      → texts.user_not_found ≢ []
      → Answers gateway r (profile_of O texts r)
  unfolding Answers profile_of create_error_response client_response rethrown is_error_response_dto
  profile_of-Answers gateway (ok (some profile)) full = refl
  profile_of-Answers gateway (ok none) full = (
    _,
    refl,
    ap (λ (m : Text). record { status_code = 404; message = m; error_code = 10021 })
        (or_else-full texts.user_not_found gateway.internal_server_error full),
  )
  profile_of-Answers gateway (err c) full = (_, refl, λ other. ground arith)

  -- Behind a closed breaker that waits more than nine seconds the client gets the profile if it comes within nine
  -- seconds, the status 404 with the code USER_NOT_FOUND if the answer is that there is none, and the status
  -- 500 with the code SERVICE_ERROR if the call fails, or ends at the limit, with anything but an
  -- error response.
  pub get_my_profile_lem :
      (gateway : Propagation.Texts) (now : ℕ) (reply : Reply (Option U))
      → texts.user_not_found ≢ []
      → O.IsClosed (
          breaker_of O texts.service_unavailable texts.breaker_timeout users_me ten_seconds
            circuits)
      → 9000
        < (O.options_of (
            breaker_of O texts.service_unavailable texts.breaker_timeout users_me ten_seconds
              circuits)).timeout
      → Answers gateway
          (within texts.rpc_timeout 9000 reply)
          (get_my_profile O texts now reply circuits).1
  get_my_profile_lem gateway now reply full closed patient =
      subst (Answers gateway (within texts.rpc_timeout 9000 reply))
        (sym (passed_on now reply closed patient))
        (profile_of-Answers gateway (within texts.rpc_timeout 9000 reply) full)
