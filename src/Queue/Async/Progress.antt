-- ===== src/Queue/Async/Progress.antt =====
-- The turns of the waiting tasks of libs/cores/src/utils/async-queue.ts.
use ocean_chat_private.Prelude.{
  ℕ, zero, suc, ◌-◌, ◌<◌, ◌≡◌, refl, ap, sym, ◌∙◌, subst, inl, inr, List, [], ◌∷◌, ◌++◌, length,
  List-cases, append-nil, arith,
}
use ocean_chat_private.Queue.Async.{Task, AsyncQueue, finish}
use ocean_chat_private.Queue.Async.Invariant.{Inv, finish-Inv, start_next-cons}

-- The running tasks without number `n`, counted from the one that has run longest; the last one leaves where
-- there are fewer.
unfoldable pub without : ℕ → List Task → List Task
without n [] = []
without zero (t ∷ others) = others
without (suc n) (t ∷ []) = []
without (suc n) (t ∷ u ∷ others) = t ∷ without n (u ∷ others)

-- Number `n` of the running tasks finishes.
pub finish_one : ℕ → AsyncQueue → AsyncQueue
unfolding without
finish_one n q = elim q.running [ [] ↦ q | t ∷ others ↦ finish (without n (t ∷ others)) q ]

-- Tasks finish in this order.
pub drain : List ℕ → AsyncQueue → AsyncQueue
drain [] q = q
drain (n ∷ order) q = drain order (finish_one n q)

without-splits :
    (n : ℕ) (t : Task) (others : List Task)
    → (before : List Task) × (u : Task) × (after : List Task) × (t ∷ others ≡ before ++ u ∷ after)
      × (without n (t ∷ others) ≡ before ++ after)
unfolding without
without-splits zero t others = ([], t, others, refl, refl)
without-splits (suc n) t [] = ([], t, [], refl, refl)
without-splits (suc n) t (u ∷ others) =
    let (before, left, after, was, stay) = without-splits n u others in
    (t ∷ before, left, after, ap (λ l. t ∷ l) was, ap (λ l. t ∷ l) stay)

finish_one-cons :
    (n : ℕ) (t : Task) (others : List Task) (q : AsyncQueue)
    → q.running ≡ t ∷ others
    → finish_one n q ≡ finish (without n (t ∷ others)) q
unfolding finish_one
finish_one-cons n t others q e =
    ap (λ l. elim l [ [] ↦ q | t ∷ others ↦ finish (without n (t ∷ others)) q ]) e

finish-next :
    (u : Task) (rest others : List Task) (q : AsyncQueue)
    → q.queue ≡ u ∷ rest
    → ((finish others q).queue ≡ rest)
      × ((finish others q).accepted ≡ q.accepted)
      × ((finish others q).concurrency ≡ q.concurrency)
unfolding finish
finish-next u rest others q e =
    let same = start_next-cons u rest (record q { active = q.active - 1; running = others }) e in
    (ap (λ r. r.queue) same, ap (λ r. r.accepted) same, ap (λ r. r.concurrency) same)

drain-started :
    (order : List ℕ) (q : AsyncQueue)
    → Inv q
    → 0 < q.concurrency
    → length q.queue ≡ length order
    → (drain order q).started ≡ q.accepted
unfolding drain
drain-started [] q v c e = elim (List-cases q.queue) [
  | inl none_waits ↦ sym (append-nil q.started) ∙ ap (◌++◌ q.started) (sym none_waits) ∙ v.fifo
  | inr (u, rest, waits) ↦ absurd (omega (arith, ap length waits))
]
drain-started (n ∷ order) q v c e = elim (List-cases q.queue) [
  | inl none_waits ↦ absurd (omega (arith, ap length none_waits))
  | inr (u, rest, waits) ↦ elim (List-cases q.running) [
    | inl idle ↦ absurd (ground (arith, v.busy, v.counted))
    | inr (t, others, runs) ↦
        let (before, left, after, was, stay) = without-splits n t others in
        let turn = finish_one-cons n t others q runs ∙ ap (λ l. finish l q) stay in
        let (queue, accepted, same) = finish-next u rest (before ++ after) q waits in
        ap (λ r. (drain order r).started) turn
        ∙ drain-started order (finish (before ++ after) q)
            (finish-Inv before left after q (runs ∙ was) v) (subst (λ k. 0 < k) (sym same) c)
            (ap length queue ∙ omega (arith, ap length waits))
        ∙ accepted
  ]
]

-- Every waiting task gets its turn in a queue that meets the invariant, so that all its tasks return a promise,
-- and may run at least one task at a time: when as many of the running tasks have finished as were waiting, in any
-- order, and nothing was enqueued in between, all that were accepted have started, in the order of their
-- acceptance.
pub drain_lem :
    (order : List ℕ) (q : AsyncQueue)
    → Inv q
    → 0 < q.concurrency
    → length order ≡ length q.queue
    → (drain order q).started ≡ q.accepted
drain_lem order q v c e = drain-started order q v c (sym e)
