-- ===== src/IdGenerator/Script.antt =====
-- The Lua scripts of libs/id-generator/src/constants/lua.constants.ts on the hash of one key, and
-- `allocateSegment` of libs/models/src/repositories/sequence.repository.ts. Texts are lists of
-- character codes.
pub mod Effect
use ocean_chat_private.Prelude.{
  ℕ, suc, ◌+◌, ◌<◌, ◌^◌, ◌≡◌, List, Option, none, some, Bool, true, false, if◌then◌else◌,
}
use ocean_chat_private.IdGenerator.Decimal.{to_decimal, is_greater, is_greater_or_equal}

abbrev pub Text : Type 0
Text = List ℕ

-- The fields of the hash `seq:<key>`; a missing field is `none`.
pub record SeqHash : Type 0 where
  pub max : Option Text
  pub cur : Option Text

-- Redis's HINCRBY by 1 on the text of a field; `none` is its error.
abbrev pub Increment : Type 0
Increment = Text → Option Text

-- HINCRBY counts up a signed 64-bit decimal number.
pub record IsIncrement (incr : Increment) : Type 0 where
  pub sound : (n : ℕ) (t : Text) → incr (to_decimal n) ≡ some t → t ≡ to_decimal (suc n)
  pub succeeds : (n : ℕ) → suc n < 2 ^ 63 → incr (to_decimal n) ≡ some (to_decimal (suc n))

-- HINCRBY, then HGET of the new value; an error of HINCRBY is one of the script.
abbrev pub count_up : Increment → SeqHash → Text → Option (SeqHash × Option Text)
count_up incr h cur_str = elim (incr cur_str) [
  | none ↦ none
  | some t ↦ some (record h { cur = some t }, some t)
]

-- The test of GENERATE_SEQ_LUA, with both fields at hand.
abbrev pub next_of : Increment → SeqHash → Text → Text → Option (SeqHash × Option Text)
next_of incr h max_str cur_str =
    if is_greater_or_equal cur_str max_str then some (h, none) else count_up incr h cur_str

abbrev pub generate_with :
    Increment → SeqHash → Option Text → Option Text → Option (SeqHash × Option Text)
generate_with incr h none cur = some (h, none)
generate_with incr h (some max_str) none = some (h, none)
generate_with incr h (some max_str) (some cur_str) = next_of incr h max_str cur_str

-- GENERATE_SEQ_LUA: the hash and the reply; `none` is an error of the script.
unfoldable pub generate_seq : Increment → SeqHash → Option (SeqHash × Option Text)
generate_seq incr h = generate_with incr h h.max h.cur

-- SYNC_SEGMENT_LUA: the hash, and whether the reply is 1.
unfoldable pub sync_segment : Text → Text → SeqHash → SeqHash × Bool
sync_segment new_max new_cur h =
    if is_greater new_max h.max
    then (record { max = some new_max; cur = some new_cur }, true)
    else (h, false)

-- `findOneAndUpdate({ $inc: { max: step } }, { new: true, upsert: true })`: the document's `max`
-- after the update; a missing document counts from 0.
unfoldable pub allocate_segment : ℕ → Option ℕ → ℕ
allocate_segment step none = step
allocate_segment step (some max) = max + step
