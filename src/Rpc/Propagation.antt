-- ===== src/Rpc/Propagation.antt =====
-- libs/common-exceptions/src/filters with the callers in apps: what becomes of an error on its way to the client.
use ocean_chat_private.Prelude.{
  ℕ, ◌≡◌, ◌≢◌, refl, ap, ◌∙◌, List, [], ◌∷◌, Option, some, ok, err, arith, false,
}
use ocean_chat_private.Http.Filter.{
  Text, Thrown, app, domain, ClientResponse, client_response, create_error_response,
  handle_http_exception, or_else,
}
use ocean_chat_private.Rpc.Client.{
  Caught, is_error_response_dto, rethrown, Reply, silence, after, send, within,
  handle_rpc_exception,
}

-- The translated texts of a service: for an internal error, and for an unavailable system.
pub record Texts : Type 0 where
  pub internal_server_error : Text
  pub system_unavailable : Text

-- An error thrown in a service, through any number of services that call one another; each answers by its
-- filter, and its caller throws again with the fallback text and code of its own.
unfoldable pub relayed : List (Texts × Text × ℕ) → Thrown Caught → Thrown Caught
relayed [] thrown = thrown
relayed ((s, message, code) ∷ hops) thrown = relayed hops (
    rethrown message code
      (handle_rpc_exception s.internal_server_error s.system_unavailable thrown))

-- What a filter makes of an error, as the client of that service would see it.
abbrev pub seen_at : {D : Type 0} → Texts → Thrown D → ClientResponse
seen_at s thrown =
    client_response (create_error_response s.internal_server_error s.system_unavailable thrown)

pub or_else-full : (m i : Text) → m ≢ [] → or_else m i ≡ m
or_else-full [] i h = absurd (h refl)
or_else-full (c ∷ cs) i h = refl

pub rethrown-answer :
    {D : Type 0} (s : Texts) (message : Text) (code : ℕ) (t : Thrown D)
    → rethrown message code (handle_rpc_exception s.internal_server_error s.system_unavailable t)
      ≡ (let dto = create_error_response s.internal_server_error s.system_unavailable t in
          app domain dto.message dto.error_code dto.status_code
            (some (handle_rpc_exception s.internal_server_error s.system_unavailable t)))
unfolding rethrown is_error_response_dto handle_rpc_exception
rethrown-answer s message code t = refl

relayed-app :
    (hops : List (Texts × Text × ℕ)) (m : Text) (c s : ℕ) (d : Option Caught)
    → m ≢ []
    → (e : Option Caught) × (relayed hops (app domain m c s d) ≡ app domain m c s e)
unfolding relayed create_error_response
relayed-app [] m c s d full = (d, refl)
relayed-app ((x, message, code) ∷ hops) m c s d full =
    let answer =
      handle_rpc_exception x.internal_server_error x.system_unavailable (app domain m c s d) in
    let (e, same) = relayed-app hops m c s (some answer) full in
    (
      e,
      ap (relayed hops) (
            rethrown-answer x message code (app domain m c s d)
            ∙ ap (λ (n : Text). app domain n c s (some answer))
                (or_else-full m x.internal_server_error full))
          ∙ same,
    )

-- The client of the gateway sees of an error what the service that threw it told, the status, the code and
-- the text, if that text is not empty, through any number of services in between that throw the error of their call
-- on as a domain exception with its text, code and status, as `handleRpcError` does.
pub error_propagates :
    {D : Type 0} (gateway service : Texts) (message : Text) (code : ℕ)
    (hops : List (Texts × Text × ℕ)) (t : Thrown D)
    → (seen_at service t).message ≢ []
    → handle_http_exception gateway.internal_server_error gateway.system_unavailable (
        relayed hops (
          rethrown message code
            (handle_rpc_exception service.internal_server_error service.system_unavailable t)))
      ≡ seen_at service t
unfolding relayed handle_http_exception create_error_response client_response
error_propagates gateway service message code hops t full =
    let dto = create_error_response service.internal_server_error service.system_unavailable t in
    let answer = handle_rpc_exception service.internal_server_error service.system_unavailable t in
    let (e, same) =
      relayed-app hops dto.message dto.error_code dto.status_code (some answer) full in
    let whole = ap (relayed hops) (rethrown-answer service message code t) ∙ same in
    ap (λ x. handle_http_exception gateway.internal_server_error gateway.system_unavailable x) whole
    ∙ ap
        (λ (n : Text). record {
          status_code = dto.status_code;
          message = n;
          error_code = dto.error_code;
        })
        (or_else-full dto.message gateway.internal_server_error full)

-- However a call ends without an answer of the service, by silence, an answer that is too late or an error
-- that is no error response, the client sees the status 500, the code SERVICE_ERROR and the text for an
-- unavailable system.
pub lost_call_hidden {ℓ} :
    {A : Type ℓ} (gateway : Texts) (timeout_text message : Text) (code limit : ℕ) (reply : Reply A)
    (thrown : Thrown Caught)
    → send timeout_text message code limit reply ≡ err thrown
    → ((t : ℕ) (e : Caught) → reply ≡ after t (err e) → is_error_response_dto e ≡ false)
    → handle_http_exception gateway.internal_server_error gateway.system_unavailable thrown
      ≡ record { status_code = 500; message = gateway.system_unavailable; error_code = 50300 }
unfolding handle_http_exception create_error_response client_response send within rethrown
    is_error_response_dto
lost_call_hidden gateway timeout_text message code limit silence thrown h g = ground arith
lost_call_hidden gateway timeout_text message code limit (after t (ok a)) thrown h g = ground arith
lost_call_hidden gateway timeout_text message code limit (after t (err e)) thrown h g =
    ground (arith, g t e refl)
