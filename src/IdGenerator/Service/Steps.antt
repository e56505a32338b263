-- ===== src/IdGenerator/Service/Steps.antt =====
-- The numbers that Redis gives out for a key of libs/id-generator/src, and the operations that keep
-- them in order.
use ocean_chat_private.Prelude.{
  ℕ, suc, ◌%◌, ◌≤◌, ◌<◌, ◌≡◌, refl, ap, sym, subst, inl, inr, List, [], ◌∷◌, map, Option, none,
  some, Bool, true, ltb, Bool-cases, arith,
}
use ocean_chat_private.IdGenerator.Decimal.{to_decimal}
use ocean_chat_private.IdGenerator.Script.{Text, SeqHash, Increment, IsIncrement, allocate_segment}
use ocean_chat_private.IdGenerator.Script.Effect.{
  Holds, Generates, exhausted, failed, next, generate_seq-Generates, generate_seq-empty,
  sync_segment-empty, sync_segment-Holds,
}
use ocean_chat_private.IdGenerator.Service.{
  World, step_size, eval_generate, eval_sync, eval_allocate, generated, synced, cur_of,
}

abbrev pub db_value : Option ℕ → ℕ
db_value none = 0
db_value (some m) = m

-- The end of a segment that MongoDB has allocated.
pub record IsAllocated (w : World) (max : ℕ) : Type 0 where
  pub whole : max % step_size ≡ 0
  pub nonempty : step_size ≤ max
  pub counted_in_db : max ≤ db_value w.db_max

-- Newest first, each number is above the ones before it.
abbrev pub Decreasing : List ℕ → Type 0
Decreasing [] = Unit
Decreasing (n ∷ []) = Unit
Decreasing (n ∷ m ∷ ns) = (m < n) × Decreasing (m ∷ ns)

-- The hash is empty and no number was issued, or it holds an allocated segment and the last number.
pub data Inv (w : World) : Type 0 where
  empty : w.hash.max ≡ none → w.issued ≡ [] → db_value w.db_max % step_size ≡ 0 → Inv w
  running :
      (max cur : ℕ) (ns : List ℕ)
      → Holds w.hash max cur
      → w.issued ≡ map to_decimal (cur ∷ ns)
      → Decreasing (cur ∷ ns)
      → cur ≤ max
      → IsAllocated w max
      → db_value w.db_max % step_size ≡ 0
      → Inv w

pub eval_generate-Inv :
    (incr : Increment) (w : World) → IsIncrement incr → Inv w → Inv (eval_generate incr w).0
unfolding eval_generate
eval_generate-Inv incr w i (empty e none_issued d) =
    rw (generate_seq-empty incr w.hash e, generated) (empty e none_issued d)
eval_generate-Inv incr w i (running max cur ns h log dec le all d) =
    go (generate_seq-Generates incr i w.hash max cur h)
  where
    go :
        {r : Option (SeqHash × Option Text)}
        → Generates incr i w.hash max cur r
        → Inv (generated w r).0
    go (exhausted ge e) = rw (e, generated) (running max cur ns h log dec le all d)
    go (failed e) = rw (e, generated) (running max cur ns h log dec le all d)
    go (next lt e) =
        rw (e, generated)
          (running max (suc cur) (cur ∷ ns) (h.0, refl) (ap (◌∷◌ (to_decimal (suc cur))) log)
            (omega arith, dec) lt
            (record {
              whole = all.whole;
              nonempty = all.nonempty;
              counted_in_db = all.counted_in_db;
            })
            d)

-- Only the end of the database's count matters to what was allocated.
pub IsAllocated-keep :
    {w w' : World} {max : ℕ}
    → db_value w.db_max ≤ db_value w'.db_max
    → IsAllocated w max
    → IsAllocated w' max
IsAllocated-keep h a = record {
  whole = a.whole;
  nonempty = a.nonempty;
  counted_in_db = omega arith;
}

abbrev pub segment_of : ℕ → SeqHash
segment_of max = record { max = some (to_decimal max); cur = some (to_decimal (cur_of max)) }

module _ (w : World) (new : ℕ) (all : IsAllocated w new) where
  abbrev Good : SeqHash × Bool → Type 0
  Good r = Inv (synced w new r).0

  installed :
      (ns : List ℕ)
      → w.issued ≡ map to_decimal ns
      → Decreasing (cur_of new ∷ ns)
      → db_value w.db_max % step_size ≡ 0
      → Good (segment_of new, true)
  installed ns log dec d =
      running new (cur_of new) ns (refl, refl) (ap (◌∷◌ (to_decimal (cur_of new))) log) dec
        (omega arith)
        (IsAllocated-keep {w' = (synced w new (segment_of new, true)).0} (omega arith) all) d

  pub eval_sync-Inv : Inv w → Inv (eval_sync new w).0
  unfolding eval_sync
  eval_sync-Inv (empty e none_issued d) =
      subst Good (sym (sync_segment-empty (to_decimal new) (to_decimal (cur_of new)) w.hash e))
        (installed [] none_issued tt d)
  eval_sync-Inv (running max cur ns h log dec le old d) =
      let spec = sync_segment-Holds new (cur_of new) w.hash max cur h in
      elim (Bool-cases (ltb max new)) [
        | inl newer ↦
            subst Good (sym (rw newer at spec)) (
              installed (cur ∷ ns) log ((ground (arith, all.whole, all.nonempty, old.whole)), dec)
                d)
        | inr obsolete ↦
            subst Good (sym (rw obsolete at spec)) (running max cur ns h log dec le old d)
      ]

pub eval_allocate-Inv : (w : World) → Inv w → Inv (eval_allocate w).0
unfolding allocate_segment
eval_allocate-Inv w (empty e none_issued d) = empty e none_issued (ground arith)
eval_allocate-Inv w (running max cur ns h log dec le old d) =
    running max cur ns h log dec le (IsAllocated-keep {w = w} (ground arith) old) (ground arith)

-- What MongoDB returns is a segment that it has just allocated.
pub eval_allocate-IsAllocated :
    (w : World) → Inv w → IsAllocated (eval_allocate w).0 (allocate_segment step_size w.db_max)
unfolding allocate_segment
eval_allocate-IsAllocated w (empty e none_issued d) = record {
  whole = ground arith;
  nonempty = ground arith;
  counted_in_db = omega arith;
}
eval_allocate-IsAllocated w (running max cur ns h log dec le old d) = record {
  whole = ground arith;
  nonempty = ground arith;
  counted_in_db = omega arith;
}
