-- ===== src/Queue/Async/Invariant.antt =====
-- What libs/cores/src/utils/async-queue.ts guarantees for tasks that return a promise.
use ocean_chat_private.Prelude.{
  ℕ, suc, ◌-◌, ◌≤◌, ◌<◌, ◌≡◌, refl, ap, sym, ◌∙◌, subst, ◌⊎◌, inl, inr, List, [], ◌∷◌, ◌++◌, Option,
  none, some, false, ltb, length, length-append, All-append, Bool-cases, List-cases, ltb→lt,
  append_assoc, append-nil, All, arith,
}
use ocean_chat_private.Queue.Async.{
  Task, AsyncQueue, create, start, start_next, push, is_full, enqueue, finish,
}

abbrev pub Fits : Option ℕ → ℕ → Type 0
Fits none n = Unit
Fits (some max) n = n ≤ max

-- `active` counts the running tasks, no more of them than `concurrency`, and a task waits only
-- while all places are taken. What was accepted was started, in that order, or waits in that order.
pub record Inv (q : AsyncQueue) : Type 0 where
  pub counted : q.active ≡ length q.running
  pub bounded : q.active ≤ q.concurrency
  pub busy : (q.queue ≡ []) ⊎ (q.active ≡ q.concurrency)
  pub fifo : q.started ++ q.queue ≡ q.accepted
  pub waiting : Fits q.max_queue_size (length q.queue)
  pub asynchronous : All (λ t. t.throws ≡ false) q.queue

pub create-Inv : (c : ℕ) (max : Option ℕ) → Inv (create c max)
create-Inv c max = record {
  counted = refl;
  bounded = omega arith;
  busy = inl refl;
  fifo = refl;
  waiting = ground arith;
  asynchronous = tt;
}

pub start_next-cons :
    (t : Task) (rest : List Task) (q : AsyncQueue)
    → q.queue ≡ t ∷ rest
    → start_next q ≡ start t (record q { queue = rest })
start_next-cons t rest q e =
    ap (λ l. elim l [ [] ↦ q | t ∷ rest ↦ start t (record q { queue = rest }) ]) e

pub start_next-nil : (q : AsyncQueue) → q.queue ≡ [] → start_next q ≡ q
start_next-nil q e = ap (λ l. elim l [ [] ↦ q | t ∷ rest ↦ start t (record q { queue = rest }) ]) e

Fits-mono : (max : Option ℕ) (m n : ℕ) → m ≤ n → Fits max n → Fits max m
Fits-mono none m n le h = tt
Fits-mono (some max) m n le h = omega arith

-- A place is free: the oldest waiting task takes it.
start-Inv :
    (t : Task) (rest : List Task) (q : AsyncQueue)
    → q.queue ≡ t ∷ rest
    → q.active ≡ length q.running
    → q.active < q.concurrency
    → (rest ≡ []) ⊎ (suc q.active ≡ q.concurrency)
    → q.started ++ t ∷ rest ≡ q.accepted
    → Fits q.max_queue_size (suc (length rest))
    → All (λ t. t.throws ≡ false) (t ∷ rest)
    → Inv (start t (record q { queue = rest }))
start-Inv t rest q e counted free busy fifo waiting (calls, others) = record {
  counted = ground (arith, length-append q.running (t ∷ []), calls);
  bounded = free;
  busy = busy;
  fifo = append_assoc q.started (t ∷ []) rest ∙ fifo;
  waiting = Fits-mono q.max_queue_size (length rest) (suc (length rest)) (omega arith) waiting;
  asynchronous = others;
}

push-start_next-Inv :
    (t : Task) (q : AsyncQueue)
    → t.throws ≡ false
    → Inv q
    → q.active < q.concurrency
    → Fits q.max_queue_size 1
    → Inv (start_next (push t q))
push-start_next-Inv t q a v free fit =
    let idle : q.queue ≡ [] = ground (arith, v.busy) in
    let alone : (push t q).queue ≡ t ∷ [] = ap (λ l. l ++ t ∷ []) idle in
    subst Inv (sym (start_next-cons t [] (push t q) alone)) (
      start-Inv t [] (push t q) alone v.counted free (inl refl)
        (ap (λ l. l ++ t ∷ [])
          (sym (append-nil q.started) ∙ ap (◌++◌ q.started) (sym idle) ∙ v.fifo))
        fit (a, tt))

push-Inv :
    (t : Task) (q : AsyncQueue)
    → t.throws ≡ false
    → Inv q
    → q.active ≡ q.concurrency
    → Fits q.max_queue_size (suc (length q.queue))
    → Inv (push t q)
push-Inv t q a v full fit = record {
  counted = v.counted;
  bounded = v.bounded;
  busy = inr full;
  fifo = sym (append_assoc q.started q.queue (t ∷ [])) ∙ ap (λ l. l ++ t ∷ []) v.fifo;
  waiting = subst (Fits q.max_queue_size) (omega (arith, length-append q.queue (t ∷ []))) fit;
  asynchronous = All-append (λ t. t.throws ≡ false) q.queue (t ∷ []) v.asynchronous (a, tt);
}

is_full-Fits : (max : Option ℕ) (l : List Task) → is_full max l ≡ false → Fits max (suc (length l))
is_full-Fits none l h = tt
is_full-Fits (some max) l h = ground arith

pub enqueue-Inv : (t : Task) (q : AsyncQueue) → t.throws ≡ false → Inv q → Inv (enqueue t q).0
unfolding enqueue
enqueue-Inv t q a v = elim (Bool-cases (is_full q.max_queue_size q.queue)) [
  | inl full ↦ simp full v
  | inr room ↦ elim (Bool-cases (ltb q.active q.concurrency)) [
    | inl free ↦
        simp (room, free)
          (push-start_next-Inv t q a v (ltb→lt _ _ free) (
            Fits-mono q.max_queue_size 1 (suc (length q.queue)) (omega arith)
              (is_full-Fits q.max_queue_size q.queue room)))
    | inr taken ↦
        simp (room, taken)
          (push-Inv t q a v (ground (arith, v.bounded))
            (is_full-Fits q.max_queue_size q.queue room))
  ]
]

pub finish-Inv :
    (before : List Task) (t : Task) (after : List Task) (q : AsyncQueue)
    → q.running ≡ before ++ t ∷ after
    → Inv q
    → Inv (finish (before ++ after) q)
unfolding finish
finish-Inv before t after q e v =
    let q' : AsyncQueue = record q { active = q.active - 1; running = before ++ after } in
    let sizes = length-append before (t ∷ after) in
    let left = length-append before after in
    let was = ap length e in
    let counted : q.active - 1 ≡ length (before ++ after) = omega (arith, v.counted) in
    elim (List-cases q.queue) [
      | inl idle ↦ subst Inv (sym (start_next-nil q' idle)) (record {
        counted = counted;
        bounded = omega (arith, v.bounded);
        busy = inl idle;
        fifo = v.fifo;
        waiting = v.waiting;
        asynchronous = v.asynchronous;
      })
      | inr (u, rest, waits) ↦
          let all_busy : q.active ≡ q.concurrency = ground (arith, v.busy) in
          subst Inv (sym (start_next-cons u rest q' waits)) (
            start-Inv u rest q' waits counted (omega (arith, v.counted))
              (inr (omega (arith, v.counted)))
              (subst (λ l. q.started ++ l ≡ q.accepted) waits v.fifo)
              (subst (λ l. Fits q.max_queue_size (length l)) waits v.waiting)
              (subst (All (λ t. t.throws ≡ false)) waits v.asynchronous))
    ]
