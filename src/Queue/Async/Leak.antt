-- ===== src/Queue/Async/Leak.antt =====
-- The slots of libs/cores/src/utils/async-queue.ts whose task throws at once.
use ocean_chat_private.Prelude.{
  ℕ, ◌+◌, ◌-◌, ◌≤◌, ◌<◌, ◌≡◌, refl, ap, sym, ◌∙◌, subst, inl, inr, List, [], ◌∷◌, ◌++◌, Option,
  length, length-append, List-cases, Bool-cases, ltb, ltb→lt, if◌then◌else◌, arith,
}
use ocean_chat_private.Queue.Async.{
  Task, AsyncQueue, create, start, start_next, push, is_full, enqueue, finish, Step, enqueues,
  finishes, Reach, here, next,
}
use ocean_chat_private.Queue.Async.Invariant.{start_next-cons, start_next-nil}

-- All places are counted as taken, and no task runs.
abbrev pub IsStalled : AsyncQueue → Type 0
IsStalled q = (q.concurrency ≤ q.active) × (q.running ≡ [])

not-split : {A : Type 0} (xs : List A) (y : A) (ys : List A) → [] ≡ xs ++ y ∷ ys → ⊥
not-split [] y ys e = cc
not-split (x ∷ xs) y ys e = cc

Step-IsStalled : {q r : AsyncQueue} → Step q r → IsStalled q → IsStalled r × (r.started ≡ q.started)
unfolding enqueue
Step-IsStalled {q} (enqueues t) (full, idle) = (ground arith, ground arith)
Step-IsStalled {q} (finishes before t after e) (full, idle) =
    absurd (not-split before t after (sym idle ∙ e))

Reach-IsStalled :
    {q r : AsyncQueue} → Reach q r → IsStalled q → IsStalled r × (r.started ≡ q.started)
Reach-IsStalled here h = (h, refl)
Reach-IsStalled (next r st) h =
    let (mid, same) = Reach-IsStalled r h in
    let (end, same') = Step-IsStalled st mid in (end, same' ∙ same)

-- How many of these tasks throw before they return their promise.
unfoldable pub thrown : List Task → ℕ
thrown [] = 0
thrown (t ∷ ts) = (if t.throws then 1 else 0) + thrown ts

thrown-append :
    (ts : List Task) (t : Task) → thrown (ts ++ t ∷ []) ≡ thrown ts + (if t.throws then 1 else 0)
unfolding thrown
thrown-append [] t = omega arith
thrown-append (x ∷ ts) t = omega (arith, thrown-append ts t)

-- A place is taken by each running task and by each that threw.
record Taken (c : ℕ) (q : AsyncQueue) : Type 0 where
  width : q.concurrency ≡ c
  counted : q.active ≡ length q.running + thrown q.started
  bounded : q.active ≤ c

start-Taken : {c : ℕ} (t : Task) (q : AsyncQueue) → Taken c q → q.active < c → Taken c (start t q)
start-Taken {c} t q v free = record {
  width = v.width;
  counted = ground (arith, length-append q.running (t ∷ []), thrown-append q.started t, v.counted);
  bounded = free;
}

start_next-Taken : {c : ℕ} (q : AsyncQueue) → Taken c q → q.active < c → Taken c (start_next q)
start_next-Taken {c} q v free = elim (List-cases q.queue) [
  | inl idle ↦ subst (Taken c) (sym (start_next-nil q idle)) v
  | inr (t, rest, waits) ↦ subst (Taken c) (sym (start_next-cons t rest q waits)) (
      start-Taken t (record q { queue = rest })
        (record { width = v.width; counted = v.counted; bounded = v.bounded }) free)
]

push-Taken : {c : ℕ} (t : Task) (q : AsyncQueue) → Taken c q → Taken c (push t q)
push-Taken t q v = record { width = v.width; counted = v.counted; bounded = v.bounded }

enqueue-Taken : {c : ℕ} (t : Task) (q : AsyncQueue) → Taken c q → Taken c (enqueue t q).0
unfolding enqueue
enqueue-Taken {c} t q v = elim (Bool-cases (is_full q.max_queue_size q.queue)) [
  | inl full ↦ simp full v
  | inr room ↦ elim (Bool-cases (ltb q.active q.concurrency)) [
    | inl free ↦
        simp (room, free)
          (start_next-Taken (push t q) (push-Taken t q v)
            (subst (λ k. q.active < k) v.width (ltb→lt _ _ free)))
    | inr taken ↦ simp (room, taken) (push-Taken t q v)
  ]
]

Step-Taken : {c : ℕ} {q r : AsyncQueue} → Step q r → Taken c q → Taken c r
unfolding finish
Step-Taken {c} {q} (enqueues t) v = enqueue-Taken t q v
Step-Taken {c} {q} (finishes before t after e) v =
    let sizes = length-append before (t ∷ after) in
    let left = length-append before after in
    let was = ap length e in
    let q' : AsyncQueue = record q { active = q.active - 1; running = before ++ after } in
    start_next-Taken q'
      (record {
        width = v.width;
        counted = omega (arith, v.counted);
        bounded = omega (arith, v.bounded);
      })
      (omega (arith, v.counted, v.bounded))

create-Taken : (c : ℕ) (max : Option ℕ) → Taken c (create c max)
unfolding thrown
create-Taken c max = record { width = refl; counted = omega arith; bounded = omega arith }

Reach-Taken : {c : ℕ} {q r : AsyncQueue} → Reach q r → Taken c q → Taken c r
Reach-Taken here v = v
Reach-Taken (next r st) v = Step-Taken st (Reach-Taken r v)

no_task_runs : {c : ℕ} (q : AsyncQueue) → Taken c q → c ≤ thrown q.started → IsStalled q
no_task_runs q v many = elim (List-cases q.running) [
  | inl idle ↦ (omega (arith, v.width, v.counted), idle)
  | inr (t, others, runs) ↦ absurd (omega (arith, v.counted, v.bounded, ap length runs))
]

-- In any run of a queue, bounded or not: once as many of its tasks as may run at a time have thrown before
-- they returned a promise, no task is left running, and none starts ever again, whatever is enqueued later.
pub throwing_tasks_stall :
    (c : ℕ) (max : Option ℕ) (q later : AsyncQueue)
    → Reach (create c max) q
    → c ≤ thrown q.started
    → Reach q later
    → (q.running ≡ []) × (later.started ≡ q.started)
throwing_tasks_stall c max q later run many further =
    let stalled = no_task_runs q (Reach-Taken run (create-Taken c max)) many in
    (stalled.1, (Reach-IsStalled further stalled).1)
