-- ===== src/Monkey/Buffer.antt =====
-- The Node.js `Buffer` calls that the codec of libs/monkey/src makes, over a list of bytes:
-- writes and reads of unsigned big-endian integers. A write checks the range of its value.
use ocean_chat_private.Prelude.{
  ℕ, zero, suc, ◌+◌, ◌*◌, ◌/◌, ◌%◌, ◌^◌, ◌<◌, List, [], ◌∷◌, Result, ok, err, ltb, set, take, drop,
  if◌then◌else◌,
}
use ocean_chat_private.Prelude.Int.{ℤ, pos, negsuc}

-- What the codec throws. `range_error` is the RangeError of the Buffer's own writes.
pub data Error : Type 0 where
  range_error req_id_out_of_bounds buffer_too_small invalid_magic : Error
  payload_length_mismatch : (expected : ℤ) (got : ℕ) → Error

abbrev pub Buffer : Type 0
Buffer = List ℕ

abbrev pub IsByte : ℕ → Type 0
IsByte b = b < 256

-- The bytes of an integer, most significant first.
abbrev pub be_bytes : ℕ → ℕ → List ℕ
be_bytes zero v = []
be_bytes (suc w) v = v / 256 ^ w % 256 ∷ be_bytes w v

abbrev pub set_bytes : Buffer → ℕ → List ℕ → Buffer
set_bytes buffer offset [] = buffer
set_bytes buffer offset (b ∷ bs) = set_bytes (set buffer offset b) (suc offset) bs

-- `buffer.writeUIntBE(value, offset, width)`, and writeUInt8, writeUInt16BE and writeUInt32BE with
-- their widths.
abbrev pub write_uint_be : Buffer → ℤ → ℕ → ℕ → Result Error Buffer
write_uint_be buffer (negsuc n) offset width = err range_error
write_uint_be buffer (pos n) offset width =
    if ltb n (256 ^ width) then ok (set_bytes buffer offset (be_bytes width n)) else err range_error

abbrev pub from_be : ℕ → List ℕ → ℕ
from_be acc [] = acc
from_be acc (b ∷ bs) = from_be (acc * 256 + b) bs

-- `buffer.readUIntBE(offset, width)`.
abbrev pub read_uint_be : Buffer → ℕ → ℕ → ℕ
read_uint_be buffer offset width = from_be 0 (take width (drop offset buffer))
