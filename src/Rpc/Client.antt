-- ===== src/Rpc/Client.antt =====
-- The `send(...).pipe(timeout(...), catchError(...))` of the callers in apps, with
-- libs/common-exceptions/src/utils/is-error-response-dto.utils.ts, and handleRpcException of
-- libs/common-exceptions/src/filters/all-exceptions.filter.ts, whose error they read.
use ocean_chat_private.Prelude.{
  ℕ, Option, none, some, Bool, true, false, Result, ok, err, ◌&&◌, ltb, if◌then◌else◌,
}
use ocean_chat_private.Http.Filter.{
  Text, domain, infrastructure, Thrown, app, create_error_response,
}

-- What a property of a caught value holds.
pub data Field : Type 0 where
  text : Text → Field
  number : ℕ → Field
  missing : Field

-- What a caller catches: an object, of which three properties are read, or any other value.
pub data Caught : Type 0 where
  object : (message error_code status_code : Field) → Caught
  primitive : Caught

abbrev pub is_text : Field → Bool
is_text (text t) = true
is_text (number n) = false
is_text missing = false

abbrev pub is_number : Field → Bool
is_number (text t) = false
is_number (number n) = true
is_number missing = false

unfoldable pub is_error_response_dto : Caught → Bool
is_error_response_dto primitive = false
is_error_response_dto (object message error_code status_code) =
    is_text message && is_number error_code && is_number status_code

-- A message, a code and a status where the value has all three.
abbrev pub fields_of : Field → Field → Field → Option (Text × ℕ × ℕ)
fields_of (text message) (number code) (number status) = some (message, code, status)
fields_of _ _ _ = none

abbrev pub dto_of : Caught → Option (Text × ℕ × ℕ)
dto_of primitive = none
dto_of (object message error_code status_code) = fields_of message error_code status_code

abbrev pub as_domain : Caught → Option (Text × ℕ × ℕ) → Thrown Caught → Thrown Caught
as_domain e none fallback = fallback
as_domain e (some (message, code, status)) fallback = app domain message code status (some e)

-- What `catchError` throws on: the error of the other service as a DomainException, or an
-- InfrastructureException with a text and a code of the caller.
unfoldable pub rethrown : Text → ℕ → Caught → Thrown Caught
unfolding is_error_response_dto
rethrown message code e =
    let fallback = app infrastructure message code 500 (some e) in
    if is_error_response_dto e then as_domain e (dto_of e) fallback else fallback

-- ErrorCodes.UNEXPECTED_ERROR.
abbrev pub unexpected_error : ℕ
unexpected_error = 99999

-- `handleRpcError` of UsersService and of RpcRoleDataSource.
unfoldable pub handle_rpc_error : Text → Caught → Thrown Caught
unfolding rethrown
handle_rpc_error internal_server_error e = rethrown internal_server_error unexpected_error e

-- The TimeoutError of rxjs has a message only.
abbrev pub timeout_error : Text → Caught
timeout_error message = object (text message) missing missing

-- What comes back of a call: nothing, or an answer after some milliseconds.
pub data Reply {ℓ} (A : Type ℓ) : Type ℓ where
  silence : Reply A
  after : ℕ → Result Caught A → Reply A

-- `timeout(limit)`.
unfoldable pub within {ℓ} : {A : Type ℓ} → Text → ℕ → Reply A → Result Caught A
within timeout_text limit silence = err (timeout_error timeout_text)
within timeout_text limit (after t answer) =
    if ltb t limit then answer else err (timeout_error timeout_text)

abbrev pub catch_error {ℓ} : {A : Type ℓ} → Text → ℕ → Result Caught A → Result (Thrown Caught) A
catch_error message code (ok a) = ok a
catch_error message code (err e) = err (rethrown message code e)

-- `firstValueFrom(client.send(...).pipe(timeout(limit), catchError(...)))`
unfoldable pub send {ℓ} : {A : Type ℓ} → Text → Text → ℕ → ℕ → Reply A → Result (Thrown Caught) A
unfolding within rethrown
send timeout_text message code limit reply =
    catch_error message code (within timeout_text limit reply)

-- `handleRpcException`: the response itself is thrown, and the caller gets it as an object of its
-- properties.
unfoldable pub handle_rpc_exception : {D : Type 0} → Text → Text → Thrown D → Caught
unfolding create_error_response
handle_rpc_exception internal_server_error system_unavailable thrown =
    let dto = create_error_response internal_server_error system_unavailable thrown in
    object (text dto.message) (number dto.error_code) (number dto.status_code)
