-- ===== src/Http/Filter.antt =====
-- libs/common-exceptions/src/filters: the error response of an exception, and how it is sent to HTTP,
-- RPC and WebSocket clients. Texts are lists of character codes. The name of the service, its
-- instance, the path and the time, which the response carries unread, are left out.
pub mod Responses
use ocean_chat_private.Prelude.{
  ℕ, List, [], ◌∷◌, ◌++◌, Option, none, some, Bool, true, false, Result, ok, err, ltb,
  if◌then◌else◌,
}
use ocean_chat_private.Prelude.Int.{ℤ, pos}
use ocean_chat_private.Monkey.Buffer.{Buffer, Error}
use ocean_chat_private.Monkey.Framer.{MessageFields, frame_ws_message}

abbrev pub Text : Type 0
Text = List ℕ

pub data ExceptionType : Type 0 where
  domain infrastructure : ExceptionType

-- `getResponse()` of an HttpException of NestJS: a text, an object with a message or a list of them,
-- or another object, given by its JSON.
pub data HttpResponse : Type 0 where
  text : Text → HttpResponse
  with_message : Text → HttpResponse
  with_messages : List Text → HttpResponse
  object : (json : Text) → HttpResponse

-- `getError()` of an RpcException or a WsException.
pub data Payload : Type 0 where
  text json : Text → Payload

-- What is thrown: an application exception, one of NestJS, a native error, which may have a numeric
-- `statusCode`, or anything else. `D` are the details.
pub data Thrown (D : Type 0) : Type 0 where
  app : (type : ExceptionType) (message : Text) (code status : ℕ) (details : Option D) → Thrown D
  http : (status : ℕ) (response : HttpResponse) → Thrown D
  rpc ws : Payload → Thrown D
  native : (message : Text) (status_code : Option ℕ) → Thrown D
  unknown : Thrown D

pub record ErrorResponseDto (D : Type 0) : Type 0 where
  pub message : Text
  pub error_code : ℕ
  pub details : Option D
  pub status_code : ℕ

-- What an HTTP client gets.
pub record ClientResponse : Type 0 where
  pub status_code : ℕ
  pub message : Text
  pub error_code : ℕ

pub data LogLevel : Type 0 where
  warn error : LogLevel

-- `messages.join(', ')`
unfoldable pub join : List Text → Text
join [] = []
join (m ∷ []) = m
join (m ∷ n ∷ rest) = m ++ (44 ∷ 32 ∷ []) ++ join (n ∷ rest)

unfoldable pub message_of : HttpResponse → Text
unfolding join
message_of (text t) = t
message_of (with_message m) = m
message_of (with_messages ms) = join ms
message_of (object t) = t

abbrev pub payload_text : Payload → Text
payload_text (text t) = t
payload_text (json t) = t

-- `a || b` on texts.
abbrev pub or_else : Text → Text → Text
or_else [] b = b
or_else (c ∷ cs) b = c ∷ cs

module _ {D : Type 0} where
  unfoldable pub log_level : Thrown D → LogLevel
  log_level (app domain message code status details) = warn
  log_level _ = error

  unfoldable pub client_response : ErrorResponseDto D → ClientResponse
  client_response dto = record {
    status_code = dto.status_code;
    message = dto.message;
    error_code = dto.error_code;
  }

-- The data of a WebSocket message as the filter finds it: the `reqId` of its header and its own.
pub record WsData : Type 0 where
  pub header_req_id : Option ℤ
  pub req_id : Option ℤ

abbrev pub or_zero : Option ℤ → ℤ
or_zero none = pos 0
or_zero (some n) = n

abbrev pub first_of : Option ℤ → Option ℤ → ℤ
first_of (some n) req_id = n
first_of none req_id = or_zero req_id

unfoldable pub req_id_of : WsData → ℤ
req_id_of ws_data = first_of ws_data.header_req_id ws_data.req_id

-- MonkeyCmd.EXCEPTION_ACK.
abbrev pub exception_ack : ℕ
exception_ack = 0x0c

-- The two translated texts of the service.
module _ (internal_server_error system_unavailable : Text) {D : Type 0} where
  unfoldable pub create_error_response : Thrown D → ErrorResponseDto D
  unfolding message_of
  create_error_response (app domain message code status details) = record {
    message = or_else message internal_server_error;
    error_code = code;
    details = details;
    status_code = status;
  }
  create_error_response (app infrastructure message code status details) = record {
    message = system_unavailable;
    error_code = 50300;
    details = details;
    status_code = if ltb status 500 then 500 else status;
  }
  create_error_response (http status response) = record {
    message = message_of response;
    error_code = status;
    details = none;
    status_code = status;
  }
  create_error_response (rpc payload) = record {
    message = payload_text payload;
    error_code = 99999;
    details = none;
    status_code = 500;
  }
  create_error_response (ws payload) = record {
    message = payload_text payload;
    error_code = 99999;
    details = none;
    status_code = 500;
  }
  create_error_response (native message status_code) = record {
    message = system_unavailable;
    error_code = 99999;
    details = none;
    status_code = elim status_code [ none ↦ 500 | some status ↦ status ];
  }
  create_error_response unknown = record {
    message = system_unavailable;
    error_code = 99999;
    details = none;
    status_code = 500;
  }

  -- `handleHttpException`.
  unfoldable pub handle_http_exception : Thrown D → ClientResponse
  unfolding create_error_response client_response
  handle_http_exception thrown = client_response (create_error_response thrown)

  -- `catch` of MonkeyWsExceptionFilter: `encode_ack` is the generated encoder of the acknowledgement,
  -- `memory` the fresh memory of the frame. `none` where the socket is not open.
  unfoldable pub catch_ws :
      (ErrorResponseDto D → Buffer)
      → Buffer
      → Bool
      → WsData
      → Thrown D
      → Result Error (Option Buffer)
  catch_ws encode_ack memory is_open ws_data thrown =
      let framed =
        frame_ws_message memory
          (record { cmd = pos exception_ack; flags = pos 0; req_id = req_id_of ws_data })
          (encode_ack (create_error_response thrown)) in
      if is_open then elim framed [ ok b ↦ ok (some b) | err e ↦ err e ] else ok none
