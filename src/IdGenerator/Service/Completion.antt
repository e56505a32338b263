-- ===== src/IdGenerator/Service/Completion.antt =====
-- How a call of libs/id-generator/src/id-generator.service.ts ends.
use ocean_chat_private.Prelude.{
  ℕ, zero, suc, ◌+◌, ◌^◌, ◌<◌, ◌≡◌, refl, ap, sym, ◌∙◌, subst, inl, inr, [], ◌∷◌, none, some, true,
  Result, ok, err, length, ltb, Bool-cases, lt→ltb, ltb→lt, arith,
}
use ocean_chat_private.Exceptions.{Exception, infrastructure, service_unavailable}
use ocean_chat_private.IdGenerator.Decimal.{to_decimal}
use ocean_chat_private.IdGenerator.Decimal.Order.{length-to_digits}
use ocean_chat_private.IdGenerator.Script.{
  Text, SeqHash, Increment, IsIncrement, generate_seq, sync_segment, allocate_segment,
}
use ocean_chat_private.IdGenerator.Script.Effect.{
  generate_seq-next, generate_seq-exhausted, generate_seq-empty, sync_segment-empty,
  sync_segment-Holds,
}
use ocean_chat_private.IdGenerator.Service.{
  World, Pod, fast_path, try_lock, recheck, allocate, sync, release, finished, replied, step,
  step_size, generated, synced, eval_generate, eval_sync, cur_of, loop, settle, after_fast_path,
  after_recheck, after_sync,
}
use ocean_chat_private.IdGenerator.Service.Steps.{db_value, Inv, segment_of, empty, running}

-- A call that makes its next `n` operations with no other call in between and no failure.
unfoldable pub run : Increment → ℕ → ℕ → World → Pod → World × Pod
run incr uuid zero w p = (w, p)
run incr uuid (suc n) w p = let s = step incr uuid replied w p in run incr uuid n s.0 s.1

-- Decimal texts are not empty.
to_decimal-cons : (n : ℕ) → (c : ℕ) × (t : Text) × (to_decimal n ≡ c ∷ t)
to_decimal-cons n = go (to_decimal n) refl
  where
    go : (t : Text) → to_decimal n ≡ t → (c : ℕ) × (t : Text) × (to_decimal n ≡ c ∷ t)
    go [] e = absurd (omega (arith, ap length e, length-to_digits (suc n) n))
    go (c ∷ t) e = (c, t, e)

run-finished :
    (incr : Increment) (uuid n : ℕ) (w : World) (r : Result Exception Text)
    → run incr uuid n w (finished r) ≡ (w, finished r)
unfolding run step
run-finished incr uuid zero w r = refl
run-finished incr uuid (suc n) w r = run-finished incr uuid n w r

-- The call has returned a number that was issued last, and no lock is left.
abbrev pub Completes : World → World × Pod → Type 0
Completes w r =
    (t : Text) × (r.1 ≡ finished (ok t)) × (r.0.lock ≡ none) × (r.0.issued ≡ t ∷ w.issued)

run-suc :
    (incr : Increment) (uuid n : ℕ) (w : World) (p : Pod) {w' : World} {p' : Pod}
    → step incr uuid replied w p ≡ (w', p')
    → run incr uuid (suc n) w p ≡ run incr uuid n w' p'
unfolding run
run-suc incr uuid n w p e = ap (λ s. run incr uuid n s.0 s.1) e

module _ (incr : Increment) (uuid : ℕ) (w : World) where
  fast_step :
      (h : SeqHash) (n : ℕ)
      → generate_seq incr w.hash ≡ some (h, some (to_decimal n))
      → step incr uuid replied w fast_path
        ≡ (record w { hash = h; issued = to_decimal n ∷ w.issued }, finished (ok (to_decimal n)))
  unfolding step eval_generate
  fast_step h n e = let (c, t, long) = to_decimal-cons n in rw (e, generated, long, after_fast_path)

  miss_step :
      generate_seq incr w.hash ≡ some (w.hash, none)
      → step incr uuid replied w fast_path ≡ (w, try_lock 0)
  unfolding step eval_generate
  miss_step e = ap (λ r. settle after_fast_path (generated w r)) e

  lock_step :
      w.lock ≡ none
      → step incr uuid replied w (try_lock 0) ≡ (record w { lock = some uuid }, allocate uuid 0)
  unfolding step
  lock_step free = ground arith

  allocate_step : step incr uuid replied w (allocate uuid 0) ≡ (
    record w { db_max = some (allocate_segment step_size w.db_max) },
    sync uuid 0 (allocate_segment step_size w.db_max),
  )
  unfolding step
  allocate_step = refl

  sync_step :
      (h : SeqHash) (new : ℕ)
      → sync_segment (to_decimal new) (to_decimal (cur_of new)) w.hash ≡ (h, true)
      → step incr uuid replied w (sync uuid 0 new) ≡ (
        record w { hash = h; issued = to_decimal (cur_of new) ∷ w.issued },
        release uuid (ok (to_decimal (cur_of new))),
      )
  unfolding step eval_sync
  sync_step h new e = ap (λ r. settle (after_sync uuid 0 new) (synced w new r)) e

  release_step :
      (r : Result Exception Text)
      → w.lock ≡ some uuid
      → step incr uuid replied w (release uuid r) ≡ (record w { lock = none }, finished r)
  unfolding step
  release_step r held = ground arith

  fast :
      (h : SeqHash) (n : ℕ)
      → w.lock ≡ none
      → generate_seq incr w.hash ≡ some (h, some (to_decimal n))
      → Completes w (run incr uuid 5 w fast_path)
  fast h n free e =
      subst (Completes w)
        (sym (run-suc incr uuid 4 w fast_path (fast_step h n e) ∙ run-finished incr uuid 4 _ _))
        (to_decimal n, refl, free, refl)

slow :
    (incr : Increment) (uuid : ℕ) (w : World) (h : SeqHash)
    → w.lock ≡ none
    → generate_seq incr w.hash ≡ some (w.hash, none)
    → (let new = allocate_segment step_size w.db_max in
        sync_segment (to_decimal new) (to_decimal (cur_of new)) w.hash ≡ (h, true))
    → Completes w (run incr uuid 5 w fast_path)
slow incr uuid w h free e s =
    let new = allocate_segment step_size w.db_max in
    let w₁ : World = record w { lock = some uuid } in
    let w₂ : World = record w₁ { db_max = some new } in
    let w₃ : World = record w₂ { hash = h; issued = to_decimal (cur_of new) ∷ w.issued } in
    let done : Result Exception Text = ok (to_decimal (cur_of new)) in
    subst (Completes w)
      (sym (
        run-suc incr uuid 4 w fast_path (miss_step incr uuid w e)
        ∙ run-suc incr uuid 3 w (try_lock 0) (lock_step incr uuid w free)
        ∙ run-suc incr uuid 2 w₁ (allocate uuid 0) (allocate_step incr uuid w₁)
        ∙ run-suc incr uuid 1 w₂ (sync uuid 0 new) (sync_step incr uuid w₂ h new s)
        ∙ run-suc incr uuid 0 w₃ (release uuid done) (release_step incr uuid w₃ done refl)
        ∙ run-finished incr uuid 0 _ _))
      (to_decimal (cur_of new), refl, refl, refl)

-- A call that runs alone on a consistent world, with the lock free, the numbers below 2^63 and no
-- failures, returns a newly issued number after at most five operations and leaves the lock free.
pub alone-Completes :
    (incr : Increment) (uuid : ℕ) (w : World)
    → IsIncrement incr
    → Inv w
    → w.lock ≡ none
    → db_value w.db_max < 2 ^ 63
    → Completes w (run incr uuid 5 w fast_path)
unfolding allocate_segment
alone-Completes incr uuid w i (empty e none_issued d) free small =
    slow incr uuid w _ free (generate_seq-empty incr w.hash e) (sync_segment-empty _ _ w.hash e)
alone-Completes incr uuid w i (running max cur ns h log dec le a d) free small =
    elim (Bool-cases (ltb cur max)) [
      | inl more ↦
          let lt = ltb→lt cur max more in
          fast incr uuid w _ (suc cur) free
            (generate_seq-next incr i w.hash max cur h lt (omega (arith, a.counted_in_db)))
      | inr used ↦
          slow incr uuid w (segment_of new) free
            (generate_seq-exhausted incr w.hash max cur h (ground arith))
            (sync_segment-Holds new (cur_of new) w.hash max cur h
              ∙ rw (lt→ltb max new (ground (arith, a.counted_in_db))))
    ]
  where
    new : ℕ
    new = allocate_segment step_size w.db_max

-- Two operations for each round of the loop: the lock, and the fast path again.
double : ℕ → ℕ
double zero = zero
double (suc k) = suc (suc (double k))

-- Another pod has the lock, and Redis has no number left.
abbrev pub IsBlocked : Increment → World → Type 0
IsBlocked incr w = (v : ℕ) × (w.lock ≡ some v) × (generate_seq incr w.hash ≡ some (w.hash, none))

module _ (incr : Increment) (uuid : ℕ) (w : World) (blocked : IsBlocked incr w) where
  refused_step : (n : ℕ) → step incr uuid replied w (try_lock n) ≡ (w, recheck (suc n))
  unfolding step
  refused_step n = ground (arith, blocked.1)

  recheck_step : (n : ℕ) → step incr uuid replied w (recheck n) ≡ (w, loop n)
  unfolding step eval_generate
  recheck_step n = ap (λ r. settle (after_recheck n) (generated w r)) blocked.2

  rounds :
      (k n : ℕ)
      → n + k ≡ 60
      → run incr uuid (double k) w (loop n)
        ≡ (w, finished (err (infrastructure service_unavailable 503)))
  unfolding double run
  rounds zero n h = ground arith
  rounds (suc k) n h =
      let turn : loop n ≡ try_lock n = ground arith in
      ap (run incr uuid (suc (suc (double k))) w) turn
      ∙ run-suc incr uuid (suc (double k)) w (try_lock n) (refused_step n)
      ∙ run-suc incr uuid (double k) w (recheck (suc n)) (recheck_step (suc n))
      ∙ rounds k (suc n) (omega arith)

-- While another pod keeps the lock and no segment comes, a call gives up after 60 rounds, 121
-- operations in all, with the error 503 SERVICE_UNAVAILABLE, and has changed nothing.
pub blocked_times_out :
    (incr : Increment) (uuid : ℕ) (w : World)
    → IsBlocked incr w
    → run incr uuid 121 w fast_path ≡ (w, finished (err (infrastructure service_unavailable 503)))
unfolding double
blocked_times_out incr uuid w b =
    run-suc incr uuid 120 w fast_path (miss_step incr uuid w b.2) ∙ rounds incr uuid w b 60 0 refl
