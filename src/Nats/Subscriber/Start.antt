-- ===== src/Nats/Subscriber/Start.antt =====
-- libs/nats-jetstream-provisioner/src/base-nats-subscriber.ts: how often a consumer is tried, and what becomes
-- of failures.
use ocean_chat_private.Prelude.{
  ℕ, zero, suc, ◌+◌, ◌<◌, ◌≡◌, refl, ap, ◌∙◌, Bool, true, Result, ok, err, arith,
}
use ocean_chat_private.Exceptions.{Exception}
use ocean_chat_private.Nats.Subscriber.{
  ConsumerInfo, Turn, try_turn, add_failed, create_consumer, fail_fast, logged, consuming, consume,
  or_log, on_module_init,
}

zero_plus : (n : ℕ) → 0 + n ≡ n
zero_plus n = omega arith

plus_zero : (i : ℕ) → i ≡ i + 0
plus_zero i = omega arith

plus_suc : (i n : ℕ) → suc i + n ≡ i + suc n
plus_suc i n = omega arith

or_next :
    Result Exception ConsumerInfo → Result Exception ConsumerInfo → Result Exception ConsumerInfo
or_next r rest = elim r [ ok info ↦ ok info | err e ↦ rest ]

module _ (is_durable : Bool) (server : ℕ → Turn) where
  from_zero :
      (n : ℕ)
      → (e : Exception) × (try_turn is_durable (server n) ≡ err e)
      → (e : Exception) × (try_turn is_durable (server (0 + n)) ≡ err e)
  from_zero n (e, q) = (e, ap (λ m. try_turn is_durable (server m)) (zero_plus n) ∙ q)

  -- Every turn from `attempt` on, of which there are `left`, fails.
  all_fail :
      (left attempt : ℕ)
      → ((n : ℕ)
          → n < left
          → (e : Exception) × (try_turn is_durable (server (attempt + n)) ≡ err e))
      → create_consumer is_durable server left attempt ≡ err add_failed
  unfolding create_consumer or_next
  all_fail zero attempt h = refl
  all_fail (suc left) attempt h =
      let (e, q) = h 0 (omega arith) in
      ap (λ r. or_next r (create_consumer is_durable server left (suc attempt)))
        (ap (λ n. try_turn is_durable (server n)) (plus_zero attempt) ∙ q)
      ∙ all_fail left (suc attempt) (λ n m.
        let (e, q) = h (suc n) (omega arith) in
        (e, ap (λ i. try_turn is_durable (server i)) (plus_suc attempt n) ∙ q))

  first_success :
      (k left attempt : ℕ) (info : ConsumerInfo)
      → k < left
      → ((n : ℕ) → n < k → (e : Exception) × (try_turn is_durable (server (attempt + n)) ≡ err e))
      → try_turn is_durable (server (attempt + k)) ≡ ok info
      → create_consumer is_durable server left attempt ≡ ok info
  unfolding create_consumer or_next
  first_success k zero attempt info l h s = absurd (omega arith)
  first_success zero (suc left) attempt info l h s =
      ap (λ r. or_next r (create_consumer is_durable server left (suc attempt)))
        (ap (λ n. try_turn is_durable (server n)) (plus_zero attempt) ∙ s)
  first_success (suc k) (suc left) attempt info l h s =
      let (e, q) = h 0 (omega arith) in
      ap (λ r. or_next r (create_consumer is_durable server left (suc attempt)))
        (ap (λ n. try_turn is_durable (server n)) (plus_zero attempt) ∙ q)
      ∙ first_success k left (suc attempt) info (omega arith)
          (λ n m.
            let (e, q) = h (suc n) (omega arith) in
            (e, ap (λ i. try_turn is_durable (server i)) (plus_suc attempt n) ∙ q))
          (ap (λ i. try_turn is_durable (server i)) (plus_suc attempt k) ∙ s)

  -- A connected subscriber consumes with the consumer of the first turn that succeeds, if that is one of the
  -- first twelve.
  pub init_consumes :
      (k : ℕ) (info : ConsumerInfo)
      → k < 12
      → ((n : ℕ) → n < k → (e : Exception) × (try_turn is_durable (server n) ≡ err e))
      → try_turn is_durable (server k) ≡ ok info
      → on_module_init true (ok tt) is_durable server ≡ ok (consuming info)
  unfolding on_module_init
  init_consumes k info l h s =
      ap (λ r. or_log (consume (fail_fast r)))
        (first_success k 12 0 info l (λ n m. from_zero n (h n m))
          (ap (λ n. try_turn is_durable (server n)) (zero_plus k) ∙ s))

  -- When all twelve turns of a connected subscriber fail, the error is only logged and the initialisation
  -- returns.
  pub failures_only_logged :
      ((n : ℕ) → n < 12 → (e : Exception) × (try_turn is_durable (server n) ≡ err e))
      → on_module_init true (ok tt) is_durable server ≡ ok (logged add_failed)
  unfolding on_module_init
  failures_only_logged h =
      ap (λ r. or_log (consume (fail_fast r))) (all_fail 12 0 (λ n m. from_zero n (h n m)))
