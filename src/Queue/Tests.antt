-- ===== src/Queue/Tests.antt =====
-- Runs of the queues of libs/cores/src/utils/async-queue.ts and
-- libs/nats-jetstream-provisioner/src/nats-jetstream-publisher.ts at concrete inputs.
use ocean_chat_private.Prelude.{
  ℕ, ◌≤◌, ◌<◌, ◌≡◌, refl, inl, [], ◌∷◌, none, some, true, false, length, zero, suc, ◌-◌,
  length-append, ◌⊎◌, arith,
}
use ocean_chat_private.Exceptions.{infrastructure, service_unavailable}
use ocean_chat_private.Queue.Async.{
  Task, AsyncQueue, create, enqueue, finish, Reach, here, next, enqueues, finishes,
}
use ocean_chat_private.Queue.Async.Invariant.{Inv}
use ocean_chat_private.Queue.Async.Runs.{queue_runs-Inv}
use ocean_chat_private.Queue.Async.Progress.{drain, drain_lem}
use ocean_chat_private.Queue.Async.Leak.{thrown, throwing_tasks_stall}
use ocean_chat_private.Queue.Publisher.{Message, Publisher, publish_safe, publishes}
use ocean_chat_private.Queue.Publisher
use ocean_chat_private.Queue.Publisher.Quota.{criticals, quotas-Inv, critical_dropped}
use ocean_chat_private.Queue.Publisher.Quota

abbrev task : ℕ → Task
task n = record { id = n; throws = false }

abbrev one_of_three : AsyncQueue
one_of_three = (enqueue (task 2) (enqueue (task 1) (enqueue (task 0) (create 1 none)).0).0).0

three_enqueued : (one_of_three.started ≡ task 0 ∷ []) × (one_of_three.queue ≡ task 1 ∷ task 2 ∷ [])
unfolding enqueue
three_enqueued = (refl, refl)

-- With a maximal size of 0 the queue takes nothing, though it is idle.
zero_size : (enqueue (task 0) (create 4 (some 0))).1 ≡ false
unfolding enqueue
zero_size = refl

one_of_three-Reach : Reach (create 1 none) one_of_three
one_of_three-Reach =
    next (next (next here (enqueues (task 0))) (enqueues (task 1))) (enqueues (task 2))

queue_runs-Inv_example :
    Inv one_of_three × (one_of_three.concurrency ≡ 1) × (one_of_three.max_queue_size ≡ none)
unfolding enqueue
queue_runs-Inv_example =
    queue_runs-Inv 1 none one_of_three one_of_three-Reach (refl, (refl, (refl, tt)))

one_of_three-Inv : Inv one_of_three
one_of_three-Inv = queue_runs-Inv_example.0

drain_lem_example : (drain (5 ∷ 0 ∷ []) one_of_three).started ≡ one_of_three.accepted
unfolding enqueue
drain_lem_example = drain_lem (5 ∷ 0 ∷ []) one_of_three one_of_three-Inv (omega arith) refl

abbrev bad : Task
bad = record { id = 7; throws = true }

-- One of two places is taken for good, and the other one after a task has run there.
abbrev both_lost : AsyncQueue
both_lost = (enqueue bad (finish [] (enqueue (task 0) (enqueue bad (create 2 (some 3))).0).0)).0

throwing_tasks_stall_example :
    (both_lost.running ≡ []) × ((enqueue (task 1) both_lost).0.started ≡ both_lost.started)
unfolding enqueue finish thrown
throwing_tasks_stall_example =
    throwing_tasks_stall 2 (some 3) both_lost (enqueue (task 1) both_lost).0
      (next
        (next (next (next here (enqueues bad)) (enqueues (task 0))) (finishes [] (task 0) [] refl))
        (enqueues bad))
      (omega arith) (next here (enqueues (task 1)))

abbrev urgent : Message
urgent = record { id = 1; is_critical = true }

abbrev sent : Publisher
sent = (publish_safe true urgent Publisher.create).0

quotas-Inv_example : Quota.Inv sent
quotas-Inv_example = quotas-Inv sent (Publisher.next Publisher.here (publishes true urgent))

-- A publisher to which `n` critical messages were handed while none completed.
filled : ℕ → Publisher
filled zero = Publisher.create
filled (suc n) = (publish_safe true urgent (filled n)).0

filled-Reach : (n : ℕ) → Publisher.Reach Publisher.create (filled n)
unfolding filled
filled-Reach zero = Publisher.here
filled-Reach (suc n) = Publisher.next (filled-Reach n) (publishes true urgent)

filled_sizes :
    (n : ℕ)
    → n ≤ 10100
    → (((filled n).active ≡ n) × (n ≤ 100) × (length (filled n).queue ≡ 0))
      ⊎ (((filled n).active ≡ 100) × (100 < n) × (length (filled n).queue ≡ n - 100))
unfolding filled publish_safe
filled_sizes zero h = inl (refl, omega arith, refl)
filled_sizes (suc n) h =
    ground (arith, filled_sizes n, length-append (filled n).queue (urgent ∷ []))

full_refuses :
    (publish_safe true urgent (filled 10100)).1 ≡ some (infrastructure service_unavailable 503)
unfolding publish_safe
full_refuses = ground (arith, filled_sizes 10100)

critical_refused : 5000 ≤ criticals (filled 10100).queue
critical_refused =
    critical_dropped (filled 10100) urgent (infrastructure service_unavailable 503)
      (filled-Reach 10100) refl full_refuses
