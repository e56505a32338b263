-- ===== src/Nats/Decoding.antt =====
-- libs/nats-jetstream-provisioner/src/base-nats-subscriber.ts: the configuration of a consumer, and the way from the
-- bytes of a message to the handler of its event. JSON, class-transformer and class-validator are
-- arguments; `J` are the values of JSON, `E` the events.
use ocean_chat_private.Prelude.{
  ℕ, zero, suc, ◌≡◌, ◌≢◌, refl, List, [], ◌∷◌, Option, none, some, Bool, Result, ok, err, arith,
}
use ocean_chat_private.Exceptions.{Exception}
use ocean_chat_private.Nats.Subscriber.{
  Processed, handled, malformed, fails, discarded, deliver, fate,
}

pub data AckPolicy : Type 0 where
  explicit other : AckPolicy

-- A configuration of which each part may be undefined.
pub record ConsumerConfig : Type 0 where
  pub ack_policy : Option AckPolicy
  pub max_deliver : Option ℕ
  pub max_ack_pending : Option ℕ
  pub filter_subject : Option (List ℕ)
  pub durable_name : Option (List ℕ)

abbrev pub over {ℓ} : {A : Type ℓ} → Option A → Option A → Option A
over (some a) base = some a
over none base = base

-- `baseConfig`.
abbrev pub base_config : ConsumerConfig
base_config = record {
  ack_policy = some explicit;
  max_deliver = some 3;
  max_ack_pending = some 1000;
  filter_subject = none;
  durable_name = none;
}

-- `this.durableName && !finalConfig.durable_name`.
abbrev pub with_durable : Option (List ℕ) → Option (List ℕ) → Option (List ℕ)
with_durable (some (c ∷ cs)) none = some (c ∷ cs)
with_durable (some (c ∷ cs)) (some []) = some (c ∷ cs)
with_durable _ configured = configured

-- `finalConfig`, from the configuration of the subscriber without what is undefined in it, and its durable name.
unfoldable pub final_config : ConsumerConfig → Option (List ℕ) → ConsumerConfig
final_config user durable_name = record {
  ack_policy = over user.ack_policy base_config.ack_policy;
  max_deliver = over user.max_deliver base_config.max_deliver;
  max_ack_pending = over user.max_ack_pending base_config.max_ack_pending;
  filter_subject = over user.filter_subject base_config.filter_subject;
  durable_name = with_durable durable_name (over user.durable_name base_config.durable_name);
}

-- `this.getConsumerConfig().max_deliver || 3`, after which handleError turns to the dead letters.
unfoldable pub last_delivery : ConsumerConfig → ℕ
last_delivery user = elim user.max_deliver [ none ↦ 3 | some zero ↦ 3 | some (suc n) ↦ suc n ]

-- The server and handleError agree on the last delivery, unless the configuration says 0.
pub last_deliveries_agree :
    (user : ConsumerConfig) (durable_name : Option (List ℕ))
    → user.max_deliver ≢ some 0
    → (final_config user durable_name).max_deliver ≡ some (last_delivery user)
unfolding final_config last_delivery
last_deliveries_agree user durable_name h =
    elim user.max_deliver
        as (λ o.
          o ≢ some 0
          → over o (some 3) ≡ some (elim o [ none ↦ 3 | some zero ↦ 3 | some (suc n) ↦ suc n ])) [
            | none ↦ λ g. refl
            | some zero ↦ λ g. absurd (g refl)
            | some (suc n) ↦ λ g. refl
          ]
      h

-- What comes of the bytes of a message: an event, a SyntaxError or ValidationErrors, or any other error.
pub data Decoded (E : Type 0) : Type 0 where
  valid : E → Decoded E
  invalid breaks : Decoded E

-- The bytes of a message as far as the handler: `parse` is JSON.parse on the decoded text, `none` where it throws;
-- `data_of` is the property `data` of an object that has it; `validate` builds the event and validates it.
module _ {J E : Type 0} (parse : List ℕ → Option J) (data_of : J → Option J)
    (validate : J → Decoded E) where
  abbrev pub payload_of : J → Option J → J
  payload_of parsed none = parsed
  payload_of parsed (some payload) = payload

  unfoldable pub decode : List ℕ → Decoded E
  decode raw = elim (parse raw) [
    | none ↦ invalid
    | some parsed ↦ validate (payload_of parsed (data_of parsed))
  ]

  abbrev pub ended : Result Exception (Unit {0}) → Processed
  ended (ok u) = handled
  ended (err e) = fails

  -- What processing a message comes to; `on_event` is the outcome of the handler.
  unfoldable pub process : (E → Result Exception (Unit {0})) → List ℕ → Processed
  unfolding decode
  process on_event raw = elim (decode raw) [
    | valid event ↦ ended (on_event event)
    | invalid ↦ malformed
    | breaks ↦ fails
  ]

  -- A message whose text is no JSON, or whose payload does not validate, is discarded at its first delivery.
  pub undecoded_discarded :
      (on_event : ℕ → E → Result Exception (Unit {0})) (raw : List ℕ) (dlq_works : Bool)
      → decode raw ≡ invalid
      → fate 3 dlq_works (λ n. process (on_event n) raw) 3 1 ≡ discarded
  unfolding fate deliver process
  undecoded_discarded on_event raw dlq_works h = ground arith

  -- A payload and an object that holds it under `data` are the same event.
  pub wrapped_alike :
      (raw wrapped : List ℕ) (j w : J)
      → parse raw ≡ some j
      → data_of j ≡ none
      → parse wrapped ≡ some w
      → data_of w ≡ some j
      → decode wrapped ≡ decode raw
  unfolding decode
  wrapped_alike raw wrapped j w p d q e = ground arith
