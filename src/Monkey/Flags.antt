-- ===== src/Monkey/Flags.antt =====
-- libs/monkey/src/enums/flags.ts: the flags byte of a header. The bit operators of JavaScript work
-- on 32-bit patterns, so `~flag` is taken in 32 bits.
pub mod Laws
use Prim.Native.Nat.{bit_and, bit_or}
use ocean_chat_private.Prelude.{ℕ, ◌-◌, ◌==◌, Bool}

-- The members of `MonkeyFlags` but NONE.
pub data Flag : Type 0 where
  require_ack compressed encrypted : Flag

abbrev pub mask : Flag → ℕ
mask require_ack = 0x01
mask compressed = 0x02
mask encrypted = 0x04

unfoldable pub has_flag : ℕ → ℕ → Bool
has_flag current_flags flag = bit_and current_flags flag == flag

unfoldable pub set_flag : ℕ → ℕ → ℕ
set_flag current_flags flag = bit_or current_flags flag

unfoldable pub clear_flag : ℕ → ℕ → ℕ
clear_flag current_flags flag = bit_and current_flags (0xffffffff - flag)
