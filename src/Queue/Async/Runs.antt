-- ===== src/Queue/Async/Runs.antt =====
-- All runs of libs/cores/src/utils/async-queue.ts.
use ocean_chat_private.Prelude.{
  ℕ, ◌-◌, ◌≡◌, refl, ap, sym, ◌∙◌, subst, ◌⊎◌, inl, inr, List, [], ◌∷◌, ◌++◌, Option, false, All,
  arith,
}
use ocean_chat_private.Queue.Async.{
  Task, AsyncQueue, create, start_next, push, enqueue, finish, Step, enqueues, finishes, Reach,
  here, next,
}
use ocean_chat_private.Queue.Async.Invariant.{Inv, create-Inv, enqueue-Inv, finish-Inv}

abbrev pub IsAsync : Task → Type 0
IsAsync t = t.throws ≡ false

start_next-accepted : (q : AsyncQueue) → (start_next q).accepted ≡ q.accepted
start_next-accepted q = ground arith

pub finish-accepted : (rest : List Task) (q : AsyncQueue) → (finish rest q).accepted ≡ q.accepted
unfolding finish
finish-accepted rest q = start_next-accepted (record q { active = q.active - 1; running = rest })

All-front {κ} : {A : Type κ} (P : A → Type 0) (xs ys : List A) → All P (xs ++ ys) → All P xs
All-front P [] ys h = tt
All-front P (x ∷ xs) ys (p, h) = (p, All-front P xs ys h)

All-last {κ} : {A : Type κ} (P : A → Type 0) (xs : List A) (y : A) → All P (xs ++ y ∷ []) → P y
All-last P [] y (p, h) = p
All-last P (x ∷ xs) y (p, h) = All-last P xs y h

-- A call is refused and changes nothing, or its task is accepted last.
enqueue-accepted :
    (t : Task) (q : AsyncQueue)
    → (((enqueue t q).0 ≡ q) × ((enqueue t q).1 ≡ false))
      ⊎ ((enqueue t q).0.accepted ≡ q.accepted ++ t ∷ [])
unfolding enqueue
enqueue-accepted t q = ground (arith, start_next-accepted (push t q))

Step-Inv :
    {q r : AsyncQueue}
    → Step q r
    → All IsAsync r.accepted
    → (All IsAsync q.accepted → Inv q)
    → Inv r
Step-Inv {q} (enqueues t) a v = elim (enqueue-accepted t q) [
  | inl refused ↦ subst Inv (sym refused.0) (v (subst (λ q. All IsAsync q.accepted) refused.0 a))
  | inr taken ↦
      let a' = subst (All IsAsync) taken a in
      enqueue-Inv t q (All-last IsAsync q.accepted t a')
        (v (All-front IsAsync q.accepted (t ∷ []) a'))
]
Step-Inv {q} (finishes before t after e) a v =
    finish-Inv before t after q e (v (subst (All IsAsync) (finish-accepted (before ++ after) q) a))

pub settings : AsyncQueue → ℕ × Option ℕ
settings q = (q.concurrency, q.max_queue_size)

pub Step-settings : {q r : AsyncQueue} → Step q r → settings r ≡ settings q
unfolding settings enqueue finish
Step-settings (enqueues t) = ground arith
Step-settings (finishes before t after e) = ground arith

Reach-Inv : {q r : AsyncQueue} → Inv q → Reach q r → All IsAsync r.accepted → Inv r
Reach-Inv v here a = v
Reach-Inv v (next r st) a = Step-Inv st a (Reach-Inv v r)

Reach-settings : {q r : AsyncQueue} → Reach q r → settings r ≡ settings q
Reach-settings here = refl
Reach-settings (next r st) = Step-settings st ∙ Reach-settings r

-- In any run from an empty queue in which every accepted task returns a promise, the bounds hold,
-- no place stays free while a task waits, and tasks start in the order in which they were accepted.
pub queue_runs-Inv :
    (c : ℕ) (max : Option ℕ) (q : AsyncQueue)
    → Reach (create c max) q
    → All IsAsync q.accepted
    → Inv q × (q.concurrency ≡ c) × (q.max_queue_size ≡ max)
unfolding settings
queue_runs-Inv c max q r a = (
  Reach-Inv (create-Inv c max) r a,
  ap (λ s. s.0) (Reach-settings r),
  ap (λ s. s.1) (Reach-settings r),
)
