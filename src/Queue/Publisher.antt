-- ===== src/Queue/Publisher.antt =====
-- libs/nats-jetstream-provisioner/src/nats-jetstream-publisher.ts: messages are published with
-- bounded concurrency; critical ones have a queue quota of their own.
pub mod Quota
use ocean_chat_private.Prelude.{
  ℕ, suc, ◌+◌, ◌-◌, ◌≡◌, List, [], ◌∷◌, ◌++◌, Option, none, some, Bool, true, false, ltb, leb,
  length, if◌then◌else◌,
}
use ocean_chat_private.Exceptions.{Exception, infrastructure, service_unavailable}

pub record Message : Type 0 where
  pub id : ℕ
  pub is_critical : Bool

-- What has become of the promise of `publishSafe`.
pub data Settled : Type 0 where
  resolved rejected : Settled

-- What JetStream does with a message: it acknowledges it, or it refuses it and acknowledges the
-- copy for the dead-letter subject, or it refuses both.
pub data Delivery : Type 0 where
  published dead_lettered lost : Delivery

-- `running` are the messages whose publication is pending. `published_ids` and `dead_ids` list what
-- JetStream took, `settled` the promises that are no longer pending; the code keeps no such lists.
pub record Publisher : Type 0 where
  pub active : ℕ
  pub queue : List Message
  pub running : List Message
  pub published_ids : List ℕ
  pub dead_ids : List ℕ
  pub settled : List (ℕ × Settled)

abbrev pub concurrency_limit : ℕ
concurrency_limit = 100

abbrev pub max_normal_queue_size : ℕ
max_normal_queue_size = 5000

abbrev pub max_critical_queue_size : ℕ
max_critical_queue_size = 10000

abbrev pub create : Publisher
create = record {
  active = 0;
  queue = [];
  running = [];
  published_ids = [];
  dead_ids = [];
  settled = [];
}

abbrev pub limit_of : Message → ℕ
limit_of m = if m.is_critical then max_critical_queue_size else max_normal_queue_size

abbrev pub start : Message → Publisher → Publisher
start m p = record p { active = suc p.active; running = p.running ++ m ∷ [] }

unfoldable pub process_next : Publisher → Publisher
process_next p = elim p.queue [ [] ↦ p | m ∷ rest ↦ start m (record p { queue = rest }) ]

-- A message that is not critical is answered as soon as it is in the queue.
abbrev pub push : Message → Publisher → Publisher
push m p = record p {
  queue = p.queue ++ m ∷ [];
  settled = if m.is_critical then p.settled else (m.id, resolved) ∷ p.settled;
}

-- `connected`: `getJetStreamClient()` returns a client. The exception is what `publishSafe` throws.
unfoldable pub publish_safe : Bool → Message → Publisher → Publisher × Option Exception
unfolding process_next
publish_safe connected m p =
    if connected
    then (if leb (limit_of m) (length p.queue)
        then (p, some (infrastructure service_unavailable 503))
        else (if ltb p.active concurrency_limit then process_next (push m p) else push m p, none))
    else (p, some (infrastructure service_unavailable 503))

abbrev pub record_delivery : Message → Delivery → Publisher → Publisher
record_delivery m published p = record p { published_ids = m.id ∷ p.published_ids }
record_delivery m dead_lettered p = record p { dead_ids = m.id ∷ p.dead_ids }
record_delivery m lost p = p

-- A critical message is answered when its delivery is decided.
abbrev pub settlement : Delivery → Settled
settlement published = resolved
settlement dead_lettered = resolved
settlement lost = rejected

abbrev pub settle : Message → Delivery → Publisher → Publisher
settle m d p = if m.is_critical then record p { settled = (m.id, settlement d) ∷ p.settled } else p

-- The `.then`, `.catch` and `.finally` of a publication of `m`; `others` still run.
unfoldable pub complete : Message → Delivery → List Message → Publisher → Publisher
unfolding process_next
complete m d others p =
    let told = settle m d (record_delivery m d p) in
    process_next (record told { active = told.active - 1; running = others })

pub data Step (p : Publisher) : Publisher → Type 0 where
  publishes : (connected : Bool) (m : Message) → Step p (publish_safe connected m p).0
  completes :
      (before : List Message) (m : Message) (after : List Message) (d : Delivery)
      → p.running ≡ before ++ m ∷ after
      → Step p (complete m d (before ++ after) p)

pub data Reach (p : Publisher) : Publisher → Type 0 where
  here : Reach p p
  next : {q r : Publisher} → Reach p q → Step q r → Reach p r
