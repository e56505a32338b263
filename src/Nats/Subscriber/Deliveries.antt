-- ===== src/Nats/Subscriber/Deliveries.antt =====
-- libs/nats-jetstream-provisioner/src/base-nats-subscriber.ts: the fate of every event.
use ocean_chat_private.Prelude.{ℕ, ◌≡◌, List, [], ◌∷◌, Bool, arith, if◌then◌else◌}
use ocean_chat_private.Nats.Subscriber.{
  Processed, handled, malformed, fails, deliver, Fate, done, discarded, dead, lost, fate,
}

module _ (dlq_works : Bool) (process : ℕ → Processed) where
  -- What an event that fails at all of its deliveries comes to.
  abbrev pub after_all : Fate
  after_all = if dlq_works then dead else lost

  -- The fate of an event that is processed like this, delivery by delivery.
  unfoldable pub first_settled : List Processed → Fate
  first_settled [] = after_all
  first_settled (handled ∷ ps) = done
  first_settled (malformed ∷ ps) = discarded
  first_settled (fails ∷ ps) = first_settled ps

  -- An event, delivered three times at most, has the fate of its first delivery that does not fail: it is
  -- handled or discarded. If all three fail, it is among the dead letters, or lost where its copy cannot be
  -- published.
  pub fate_lem :
      fate 3 dlq_works process 3 1 ≡ first_settled (process 1 ∷ process 2 ∷ process 3 ∷ [])
  unfolding fate deliver first_settled
  fate_lem = ground arith
