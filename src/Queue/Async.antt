-- ===== src/Queue/Async.antt =====
-- libs/cores/src/utils/async-queue.ts: tasks run with bounded concurrency, the rest wait.
pub mod Invariant
pub mod Runs
pub mod Progress
pub mod Leak
use ocean_chat_private.Prelude.{
  ℕ, suc, ◌+◌, ◌-◌, ◌≡◌, List, [], ◌∷◌, ◌++◌, Option, none, some, Bool, true, false, ltb, leb,
  length, if◌then◌else◌,
}

-- A task, by a number, and whether calling it throws before it returns its promise.
pub record Task : Type 0 where
  pub id : ℕ
  pub throws : Bool

-- `active` is `activeCount`. `running` lists the tasks whose promise is pending; `accepted` and
-- `started` list the tasks that `enqueue` took and that were called, oldest first. The code keeps
-- no such lists.
pub record AsyncQueue : Type 0 where
  pub concurrency : ℕ
  pub max_queue_size : Option ℕ
  pub active : ℕ
  pub queue : List Task
  pub running : List Task
  pub accepted : List Task
  pub started : List Task

abbrev pub create : ℕ → Option ℕ → AsyncQueue
create concurrency max = record {
  concurrency = concurrency;
  max_queue_size = max;
  active = 0;
  queue = [];
  running = [];
  accepted = [];
  started = [];
}

-- The function that `enqueue` puts in the queue, when it is called: it counts the task as active,
-- and a task that throws at once never reaches the `finally` that would count it out.
abbrev pub start : Task → AsyncQueue → AsyncQueue
start t q = record q {
  active = suc q.active;
  running = if t.throws then q.running else q.running ++ t ∷ [];
  started = q.started ++ t ∷ [];
}

-- `const next = this.queue.shift(); next?.();`
abbrev pub start_next : AsyncQueue → AsyncQueue
start_next q = elim q.queue [ [] ↦ q | t ∷ rest ↦ start t (record q { queue = rest }) ]

-- `this.maxQueueSize !== undefined && this.queue.length >= this.maxQueueSize`
abbrev pub is_full : Option ℕ → List Task → Bool
is_full none queue = false
is_full (some max) queue = leb max (length queue)

abbrev pub push : Task → AsyncQueue → AsyncQueue
push t q = record q { queue = q.queue ++ t ∷ []; accepted = q.accepted ++ t ∷ [] }

-- `false` where the promise is rejected with 'Queue is full'.
unfoldable pub enqueue : Task → AsyncQueue → AsyncQueue × Bool
enqueue t q =
    if is_full q.max_queue_size q.queue
    then (q, false)
    else (if ltb q.active q.concurrency then start_next (push t q) else push t q, true)

-- The `finally` of a running task, whichever way its promise settled; `running` is what is left.
unfoldable pub finish : List Task → AsyncQueue → AsyncQueue
finish running q = start_next (record q { active = q.active - 1; running = running })

pub data Step (q : AsyncQueue) : AsyncQueue → Type 0 where
  enqueues : (t : Task) → Step q (enqueue t q).0
  finishes :
      (before : List Task) (t : Task) (after : List Task)
      → q.running ≡ before ++ t ∷ after
      → Step q (finish (before ++ after) q)

pub data Reach (q : AsyncQueue) : AsyncQueue → Type 0 where
  here : Reach q q
  next : {r s : AsyncQueue} → Reach q r → Step r s → Reach q s
