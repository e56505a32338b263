-- ===== src/Http/Filter/Responses.antt =====
-- libs/common-exceptions/src/filters: what clients are told of an error.
use ocean_chat_private.Prelude.{
  ℕ, ◌≤◌, ◌<◌, ◌≡◌, refl, Option, some, true, ok, length, arith, ◌>>=◌, ap, ◌++◌, ◌∙◌,
}
use ocean_chat_private.Prelude.Int.{pos}
use ocean_chat_private.Monkey.Buffer.{Buffer}
use ocean_chat_private.Monkey.Framer.{
  MessageFields, frame_ws_message, unframe_ws_message, with_length,
}
use ocean_chat_private.Monkey.Framer.Integrity.{unframe-frame}
use ocean_chat_private.Monkey.Header.RoundTrip.{header_of, encode_lem, encoded, layout}
use ocean_chat_private.Http.Filter.{
  Text, Thrown, app, infrastructure, ErrorResponseDto, client_response, create_error_response,
  handle_http_exception, WsData, req_id_of, exception_ack, catch_ws,
}

exception_fields : ℕ → MessageFields
exception_fields r = record { cmd = pos exception_ack; flags = pos 0; req_id = pos r }

frame_succeeds :
    (memory : Buffer) (r : ℕ) (payload : Buffer)
    → length memory ≡ 12
    → r < 0x1000000
    → length payload < 0x100000000
    → (b : Buffer) × (frame_ws_message memory (exception_fields r) payload ≡ ok b)
unfolding frame_ws_message exception_fields
frame_succeeds memory r payload m s l = (
  layout 12 0 r (length payload) ++ payload,
  ap (λ e. e >>= λ header. ok (header ++ payload))
      (encode_lem memory (with_length (exception_fields r) payload) m ∙ fits),
)
  where
    fits : encoded (with_length (exception_fields r) payload) ≡ ok (layout 12 0 r (length payload))
    fits = ground arith

module _ (internal_server_error system_unavailable : Text) {D : Type 0} where
  -- HTTP clients learn nothing of an infrastructure exception but its status, which is at least 500:
  -- two of them with the same status are answered alike.
  pub infrastructure_hidden :
      (m n : Text) (c d s : ℕ) (x y : Option D)
      → (handle_http_exception internal_server_error system_unavailable (app infrastructure m c s x)
          ≡ handle_http_exception internal_server_error system_unavailable
              (app infrastructure n d s y))
        × (500
            ≤ (handle_http_exception internal_server_error system_unavailable
                (app infrastructure m c s x)).status_code)
  unfolding handle_http_exception create_error_response client_response
  infrastructure_hidden m n c d s x y = (refl, ground arith)

  -- To an open socket the filter sends a frame that unframes to EXCEPTION_ACK with the id of the
  -- request and the encoded error, if the id has at most 24 bits and the encoding less than 2^32 bytes.
  pub ws_answer_matches :
      (encode_ack : ErrorResponseDto D → Buffer) (memory : Buffer) (w : WsData) (t : Thrown D)
      (r : ℕ)
      → length memory ≡ 12
      → req_id_of w ≡ pos r
      → r < 0x1000000
      → length (encode_ack (create_error_response internal_server_error system_unavailable t))
        < 0x100000000
      → (b : Buffer) × (catch_ws internal_server_error system_unavailable encode_ack memory true w t
          ≡ ok (some b))
        × (unframe_ws_message b
            ≡ ok (
              header_of (record {
                cmd = pos exception_ack;
                flags = pos 0;
                req_id = pos r;
                len = pos (
                    length (
                      encode_ack
                        (create_error_response internal_server_error system_unavailable t)));
              }),
              encode_ack (create_error_response internal_server_error system_unavailable t),
            ))
  unfolding catch_ws exception_fields
  ws_answer_matches encode_ack memory w t r m id small l =
      let payload = encode_ack (create_error_response internal_server_error system_unavailable t) in
      let (b, framed) = frame_succeeds memory r payload m small l in
      (b, ground arith, unframe-frame memory _ payload b m framed)
