-- ===== src/Nats/Tests.antt =====
-- libs/nats-jetstream-provisioner/src/base-nats-subscriber.ts: a server that is down, and failing events.
use ocean_chat_private.Prelude.{
  ℕ, ◌≡◌, refl, [], ◌∷◌, none, true, false, ok, err, ◌==◌, if◌then◌else◌,
}
use ocean_chat_private.Exceptions.{other}
use ocean_chat_private.Nats.Subscriber.{
  Turn, try_turn, add_failed, create_consumer, logged, consuming, on_module_init, Processed,
  handled, fails, deliver, fate, done, lost,
}
use ocean_chat_private.Nats.Subscriber.Start.{failures_only_logged}
use ocean_chat_private.Nats.Subscriber.Deliveries.{first_settled, fate_lem}

abbrev down : ℕ → Turn
down n = record { existing = none; updated = err other; added = err other }

failures_only_logged_run : on_module_init true (ok tt) true down ≡ ok (logged add_failed)
unfolding try_turn
failures_only_logged_run = failures_only_logged true down (λ n l. (other, refl))

-- The server is up from the third turn on.
abbrev slow : ℕ → Turn
slow n = record {
  existing = none;
  updated = err other;
  added = if n == 0 then err other else (if n == 1 then err other else ok 5);
}

third_turn : on_module_init true (ok tt) false slow ≡ ok (consuming 5)
unfolding on_module_init create_consumer try_turn
third_turn = refl

-- The first delivery fails, the next one is handled.
abbrev shaky : ℕ → Processed
shaky n = if n == 1 then fails else handled

fate_lem_example : fate 3 true shaky 3 1 ≡ first_settled true shaky (fails ∷ handled ∷ handled ∷ [])
fate_lem_example = fate_lem true shaky

handled_later : fate 3 true shaky 3 1 ≡ done
unfolding fate deliver
handled_later = refl

-- The handler always fails, and so does the copy for the dead letters.
lost_event : fate 3 false (λ n. fails) 3 1 ≡ lost
unfolding fate deliver
lost_event = refl
