-- ===== src/IdGenerator/Decimal.antt =====
-- Decimal numbers as the texts that Redis holds, over their character codes, and the comparisons of
-- libs/id-generator/src/constants/lua.constants.ts, which compare lengths and then texts.
pub mod Order
use ocean_chat_private.Prelude.{
  ℕ, zero, suc, ◌+◌, ◌/◌, ◌%◌, List, [], ◌∷◌, ◌++◌, Bool, true, false, not, ◌&&◌, ◌||◌, ltb, ◌==◌,
  length, if◌then◌else◌, Option, none, some,
}

abbrev pub digit : ℕ → ℕ
digit d = b'0' + d

-- The number's digits, most significant first, with fuel.
unfoldable pub to_digits : ℕ → ℕ → List ℕ
to_digits zero n = []
to_digits (suc fuel) n =
    let shorter = to_digits fuel (n / 10) in
    if ltb n 10 then digit n ∷ [] else shorter ++ digit (n % 10) ∷ []

-- `String(n)`: a number has at most as many digits as its value and one.
abbrev pub to_decimal : ℕ → List ℕ
to_decimal n = to_digits (suc n) n

-- Lua's `a > b` on texts: the first difference decides, and a proper prefix is smaller.
unfoldable pub text_gt : List ℕ → List ℕ → Bool
text_gt [] b = false
text_gt (x ∷ a) [] = true
text_gt (x ∷ a) (y ∷ b) = ltb y x || (x == y && text_gt a b)

abbrev pub text_ge : List ℕ → List ℕ → Bool
text_ge a b = not (text_gt b a)

-- `is_greater` of SYNC_SEGMENT_LUA; `b` is nil where the field is missing.
unfoldable pub is_greater : List ℕ → Option (List ℕ) → Bool
is_greater a none = true
is_greater a (some b) =
    if not (length a == length b) then ltb (length b) (length a) else text_gt a b

-- `is_greater_or_equal` of GENERATE_SEQ_LUA.
unfoldable pub is_greater_or_equal : List ℕ → List ℕ → Bool
is_greater_or_equal a b =
    if not (length a == length b) then ltb (length b) (length a) else text_ge a b
