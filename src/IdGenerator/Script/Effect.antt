-- ===== src/IdGenerator/Script/Effect.antt =====
-- What the scripts of libs/id-generator/src/constants/lua.constants.ts do to a hash that holds the
-- decimal texts of two numbers.
use ocean_chat_private.Prelude.{
  ℕ, suc, ◌^◌, ◌≤◌, ◌<◌, ◌≡◌, subst, inl, inr, Option, none, some, true, false, ltb, if◌then◌else◌,
  Bool-cases, Option-cases, arith,
}
use ocean_chat_private.IdGenerator.Decimal.{to_decimal, is_greater}
use ocean_chat_private.IdGenerator.Decimal.Order.{comparisons_are_numeric}
use ocean_chat_private.IdGenerator.Script.{
  Text, SeqHash, Increment, IsIncrement, generate_seq, count_up, sync_segment,
}

abbrev pub Holds : SeqHash → ℕ → ℕ → Type 0
Holds h max cur = (h.max ≡ some (to_decimal max)) × (h.cur ≡ some (to_decimal cur))

abbrev pub counted : SeqHash → ℕ → SeqHash
counted h cur = record h { cur = some (to_decimal (suc cur)) }

module _ (incr : Increment) (i : IsIncrement incr) where
  -- The three outcomes: exhausted, an error of HINCRBY, or the next number.
  pub data Generates (h : SeqHash) (max cur : ℕ) : Option (SeqHash × Option Text) → Type 0 where
    exhausted :
        {r : Option (SeqHash × Option Text)}
        → max ≤ cur
        → r ≡ some (h, none)
        → Generates h max cur r
    failed : {r : Option (SeqHash × Option Text)} → r ≡ none → Generates h max cur r
    next :
        {r : Option (SeqHash × Option Text)}
        → cur < max
        → r ≡ some (counted h cur, some (to_decimal (suc cur)))
        → Generates h max cur r

  count_up-Generates :
      (h : SeqHash) (max cur : ℕ)
      → cur < max
      → Generates h max cur (count_up incr h (to_decimal cur))
  count_up-Generates h max cur lt = elim (Option-cases (incr (to_decimal cur))) [
    | inl e ↦ failed (rw (e, count_up))
    | inr (t, e) ↦ next lt (rw (e, count_up, i.sound cur t e))
  ]

  pub generate_seq-Generates :
      (h : SeqHash) (max cur : ℕ) → Holds h max cur → Generates h max cur (generate_seq incr h)
  unfolding generate_seq
  generate_seq-Generates h max cur (m, c) =
      let same = (comparisons_are_numeric cur max).1 in
      elim (Bool-cases (ltb cur max)) [
        | inl lt ↦
            subst (Generates h max cur) (ground arith) (count_up-Generates h max cur (ground arith))
        | inr ge ↦ exhausted (ground arith) (ground arith)
      ]

  -- Within 64 bits the next number comes while the segment lasts.
  pub generate_seq-next :
      (h : SeqHash) (max cur : ℕ)
      → Holds h max cur
      → cur < max
      → suc cur < 2 ^ 63
      → generate_seq incr h ≡ some (counted h cur, some (to_decimal (suc cur)))
  unfolding generate_seq
  generate_seq-next h max cur (m, c) lt small =
      let same = (comparisons_are_numeric cur max).1 in
      let up = i.succeeds cur small in ground arith

pub generate_seq-exhausted :
    (incr : Increment) (h : SeqHash) (max cur : ℕ)
    → Holds h max cur
    → max ≤ cur
    → generate_seq incr h ≡ some (h, none)
unfolding generate_seq
generate_seq-exhausted incr h max cur (m, c) ge =
    let same = (comparisons_are_numeric cur max).1 in ground arith

pub generate_seq-empty :
    (incr : Increment) (h : SeqHash) → h.max ≡ none → generate_seq incr h ≡ some (h, none)
unfolding generate_seq
generate_seq-empty incr h e = ground arith

pub sync_segment-empty :
    (max cur : Text) (h : SeqHash)
    → h.max ≡ none
    → sync_segment max cur h ≡ (record { max = some max; cur = some cur }, true)
unfolding sync_segment is_greater
sync_segment-empty max cur h e = ground arith

-- A segment replaces one with a smaller end, and no other.
pub sync_segment-Holds :
    (new cur : ℕ) (h : SeqHash) (max c : ℕ)
    → Holds h max c
    → sync_segment (to_decimal new) (to_decimal cur) h ≡ (
        if ltb max new
        then (record { max = some (to_decimal new); cur = some (to_decimal cur) }, true)
        else (h, false))
unfolding sync_segment
sync_segment-Holds new cur h max c (m, _) =
    let same = (comparisons_are_numeric new max).0 in ground arith
