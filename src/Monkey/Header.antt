-- ===== src/Monkey/Header.antt =====
-- libs/monkey/src/codec/header.ts: the 12-byte header. A number of the source is an integer here.
pub mod RoundTrip
use ocean_chat_private.Prelude.{
  ℕ, ◌+◌, Result, ok, err, ◌>>=◌, ◌>>◌, throw_if, ltb, length, Bool, true, ◌||◌,
}
use ocean_chat_private.Prelude.Int.{ℤ, pos, negsuc}
use ocean_chat_private.Monkey.Buffer.{
  Buffer, Error, req_id_out_of_bounds, buffer_too_small, write_uint_be, read_uint_be,
}

pub record HeaderData : Type 0 where
  pub magic : ℤ
  pub version : ℤ
  pub cmd : ℤ
  pub flags : ℤ
  pub req_id : ℤ
  pub len : ℤ

-- `Omit<HeaderData, 'magic' | 'version'>`.
pub record Fields : Type 0 where
  pub cmd : ℤ
  pub flags : ℤ
  pub req_id : ℤ
  pub len : ℤ

abbrev pub size : ℕ
size = 12

abbrev pub magic_number : ℕ
magic_number = 0x4d4b

abbrev pub current_version : ℕ
current_version = 0x01

-- `reqId < 0 || reqId > 0xffffff`.
abbrev pub req_id_is_bad : ℤ → Bool
req_id_is_bad (pos n) = ltb 0xffffff n
req_id_is_bad (negsuc n) = true

-- `memory` is what `Buffer.allocUnsafe(12)` returns: twelve bytes of any content.
unfoldable pub encode : Buffer → Fields → Result Error Buffer
encode memory fields = do
  b₁ ← write_uint_be memory (pos magic_number) 0 2
  b₂ ← write_uint_be b₁ (pos current_version) 2 1
  b₃ ← write_uint_be b₂ fields.cmd 3 1
  b₄ ← write_uint_be b₃ fields.flags 4 1
  throw_if (req_id_is_bad fields.req_id) req_id_out_of_bounds
  b₅ ← write_uint_be b₄ fields.req_id 5 3
  write_uint_be b₅ fields.len 8 4

unfoldable pub decode : Buffer → Result Error HeaderData
decode buffer = do
  throw_if (ltb (length buffer) size) buffer_too_small
  ok (record {
    magic = pos (read_uint_be buffer 0 2);
    version = pos (read_uint_be buffer 2 1);
    cmd = pos (read_uint_be buffer 3 1);
    flags = pos (read_uint_be buffer 4 1);
    req_id = pos (read_uint_be buffer 5 3);
    len = pos (read_uint_be buffer 8 4);
  })
