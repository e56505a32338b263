-- ===== src/Nats/Subscriber.antt =====
-- libs/nats-jetstream-provisioner/src/base-nats-subscriber.ts: the creation of a consumer, and what becomes
-- of an event that is delivered.
pub mod Deliveries
pub mod Start
use ocean_chat_private.Prelude.{
  ℕ, zero, suc, List, [], ◌∷◌, Option, none, some, Bool, true, false, Result, ok, err, ◌>>=◌, leb,
  ltb, if◌then◌else◌,
}
use ocean_chat_private.Exceptions.{Exception, domain, infrastructure, other, service_unavailable}

-- The consumer that the server reports.
abbrev pub ConsumerInfo : Type 0
ConsumerInfo = ℕ

-- What the server answers in one turn of the loop: the consumer of the durable name, where there is one, and
-- the outcomes of `update` and `add`.
pub record Turn : Type 0 where
  pub existing : Option ConsumerInfo
  pub updated : Result Exception ConsumerInfo
  pub added : Result Exception ConsumerInfo

-- An update that fails leaves the consumer that exists.
abbrev pub update_or : ConsumerInfo → Result Exception ConsumerInfo → ConsumerInfo
update_or existing (ok info) = info
update_or existing (err e) = existing

-- The `try` of a turn; `is_durable`: the subscriber has a durable name.
unfoldable pub try_turn : Bool → Turn → Result Exception ConsumerInfo
try_turn false turn = turn.added
try_turn true turn = elim turn.existing [
  | none ↦ turn.added
  | some info ↦ ok (update_or info turn.updated)
]

abbrev pub max_retries : ℕ
max_retries = 12

abbrev pub add_failed : Exception
add_failed = infrastructure service_unavailable 500

-- The loop from `attempt` failed turns on, with `left` turns left; `server` gives the answers of each.
unfoldable pub create_consumer : Bool → (ℕ → Turn) → ℕ → ℕ → Result Exception ConsumerInfo
unfolding try_turn
create_consumer is_durable server zero attempt = err add_failed
create_consumer is_durable server (suc left) attempt =
    let rest = create_consumer is_durable server left (suc attempt) in
    elim (try_turn is_durable (server attempt)) [ ok info ↦ ok info | err e ↦ rest ]

-- The inner `catch` passes application exceptions and wraps the others; the loop throws none of these.
abbrev pub fail_fast : Result Exception ConsumerInfo → Result Exception ConsumerInfo
fail_fast (ok info) = ok info
fail_fast (err (domain code status)) = err (domain code status)
fail_fast (err (infrastructure code status)) = err (infrastructure code status)
fail_fast (err other) = err add_failed

-- What `onModuleInit` ends with: nothing to connect to, an error that is logged, or events that are consumed.
pub data Started : Type 0 where
  no_url : Started
  logged : Exception → Started
  consuming : ConsumerInfo → Started

abbrev pub consume : Result Exception ConsumerInfo → Result Exception Started
consume (ok info) = ok (consuming info)
consume (err e) = err e

-- The outer `catch`.
abbrev pub or_log : Result Exception Started → Result Exception Started
or_log (ok started) = ok started
or_log (err e) = ok (logged e)

-- `onModuleInit`: `connected` is the outcome of `connect` and of the managers.
unfoldable pub on_module_init :
    Bool → Result Exception (Unit {0}) → Bool → (ℕ → Turn) → Result Exception Started
unfolding create_consumer
on_module_init false connected is_durable server = ok no_url
on_module_init true connected is_durable server =
    or_log
      (connected >>= λ u. consume (fail_fast (create_consumer is_durable server max_retries 0)))

-- What processing an event comes to: it is handled, it does not parse or validate, or the handler throws.
pub data Processed : Type 0 where
  handled malformed fails : Processed

-- What the server is told.
pub data Reply : Type 0 where
  ack nak : Reply

-- What is left of a delivery: the reply, whether the handler has finished, and whether the event was copied
-- to the dead-letter subject.
pub record Delivered : Type 0 where
  pub reply : Reply
  pub is_handled : Bool
  pub is_dead : Bool

-- The dead-letter branch of `handleError`; `dlq_works`: the copy is published.
abbrev pub to_dead_letters : Bool → Delivered
to_dead_letters true = record { reply = ack; is_handled = false; is_dead = true }
to_dead_letters false = record { reply = nak; is_handled = false; is_dead = false }

-- One delivery, the `count`-th of the event.
unfoldable pub deliver : ℕ → Bool → ℕ → Processed → Delivered
deliver max_deliver dlq_works count handled = record {
  reply = ack;
  is_handled = true;
  is_dead = false;
}
deliver max_deliver dlq_works count malformed = record {
  reply = ack;
  is_handled = false;
  is_dead = false;
}
deliver max_deliver dlq_works count fails =
    if leb max_deliver count
    then to_dead_letters dlq_works
    else record { reply = nak; is_handled = false; is_dead = false }

-- The fate of an event.
pub data Fate : Type 0 where
  done discarded dead lost : Fate

abbrev pub acked : Delivered → Fate
acked d = if d.is_handled then done else (if d.is_dead then dead else discarded)

-- All deliveries of an event, of which `left` are left: the server delivers it again after a nak, and no
-- more than `max_deliver` times. `process` gives what each delivery comes to.
unfoldable pub fate : ℕ → Bool → (ℕ → Processed) → ℕ → ℕ → Fate
unfolding deliver
fate max_deliver dlq_works process zero count = lost
fate max_deliver dlq_works process (suc left) count =
    let rest = fate max_deliver dlq_works process left (suc count) in
    let d = deliver max_deliver dlq_works count (process count) in
    elim d.reply [ ack ↦ acked d | nak ↦ rest ]
