-- ===== src/Monkey/Framer.antt =====
-- libs/monkey/src/codec/framer.ts, which libs/monkey/src/monkey.service.ts passes on: a WebSocket
-- message is a header and its payload.
pub mod Integrity
use ocean_chat_private.Prelude.{
  ℕ, ◌+◌, ◌-◌, Result, ok, err, ◌>>=◌, ◌>>◌, throw_if, ltb, ◌==◌, length, Bool, not, ◌++◌, drop,
}
use ocean_chat_private.Prelude.Int.{ℤ, pos, negsuc}
use ocean_chat_private.Monkey.Buffer.{
  Buffer, Error, buffer_too_small, invalid_magic, payload_length_mismatch,
}
use ocean_chat_private.Monkey.Header.{HeaderData, Fields, size, magic_number, encode, decode}

-- `Omit<HeaderData, 'magic' | 'version' | 'length'>`.
pub record MessageFields : Type 0 where
  pub cmd : ℤ
  pub flags : ℤ
  pub req_id : ℤ

-- `===` between an integer and a natural number.
abbrev pub is : ℤ → ℕ → Bool
is (pos n) m = n == m
is (negsuc n) m = Bool.false

-- `buffer.length === MonkeyHeader.SIZE + header.length`.
abbrev pub has_length : Buffer → ℤ → Bool
has_length buffer (pos n) = length buffer == size + n
has_length buffer (negsuc n) = length buffer + n + 1 == size

unfoldable pub unframe_ws_message : Buffer → Result Error (HeaderData × Buffer)
unframe_ws_message buffer = do
  throw_if (ltb (length buffer) size) buffer_too_small
  header ← decode buffer
  throw_if (not (is header.magic magic_number)) invalid_magic
  throw_if (not (has_length buffer header.len))
      (payload_length_mismatch header.len (length buffer - size))
  ok (header, drop size buffer)

abbrev pub with_length : MessageFields → Buffer → Fields
with_length data_fields payload = record {
  cmd = data_fields.cmd;
  flags = data_fields.flags;
  req_id = data_fields.req_id;
  len = pos (length payload);
}

-- `memory` is the fresh memory of the header's buffer.
unfoldable pub frame_ws_message : Buffer → MessageFields → Buffer → Result Error Buffer
frame_ws_message memory data_fields payload = do
  header ← encode memory (with_length data_fields payload)
  ok (header ++ payload)
