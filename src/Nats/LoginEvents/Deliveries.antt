-- ===== src/Nats/LoginEvents/Deliveries.antt =====
-- apps/oceanchat-user/src/modules/nats-events/nats-events.service.ts: the deliveries of one event.
use ocean_chat_private.Prelude.{
  ℕ, ◌+◌, ◌<◌, ◌≡◌, ◌≢◌, refl, ap, ◌∙◌, ◌⊎◌, List, none, some, true, false, arith,
}
use ocean_chat_private.Store.{Store, setnx_until}
use ocean_chat_private.Users.Accounts.{Device, add_device}
use ocean_chat_private.Nats.LoginEvents.{
  UserLoggedInEvent, idempotency_ttl, Faults, returns, first_time, on_event,
}

module _ (R : Store UserLoggedInEvent (Unit {0})) where
  -- What Redis has after other events than this one were handled, of whatever users and with whatever failures.
  pub data Others (event : UserLoggedInEvent) (redis : R.State) : R.State → Type 0 where
    here : Others event redis redis
    next :
        {later : R.State} (f : Faults) (other_event : UserLoggedInEvent) (now : ℕ)
        (devices : List Device)
        → event ≢ other_event
        → Others event redis later
        → Others event redis (on_event R f other_event now later devices).0

  first_time-keeps :
      (f : Faults) (event other_event : UserLoggedInEvent) (now : ℕ) (redis : R.State)
      (devices : List Device)
      → event ≢ other_event
      → R.get event now (first_time R f other_event redis devices).0 ≡ R.get event now redis
  unfolding first_time
  first_time-keeps f event other_event now redis devices differs =
      ground (arith, R.get-delete_other other_event event now redis differs)

  on_event-keeps :
      (f : Faults) (event other_event : UserLoggedInEvent) (at now : ℕ) (redis : R.State)
      (devices : List Device)
      → event ≢ other_event
      → R.get event now (on_event R f other_event at redis devices).0 ≡ R.get event now redis
  unfolding on_event setnx_until
  on_event-keeps f event other_event at now redis devices differs =
      let set = R.set other_event tt idempotency_ttl at redis in
      ground (
        arith,
        R.get-set_other other_event event tt idempotency_ttl at now redis differs,
        first_time-keeps f event other_event now set devices differs,
      )

  Others-get :
      {event : UserLoggedInEvent} {redis later : R.State} (now : ℕ)
      → Others event redis later
      → R.get event now later ≡ R.get event now redis
  Others-get now here = refl
  Others-get {event} now (next {later} f other_event at devices differs steps) =
      on_event-keeps f event other_event at now later devices differs ∙ Others-get now steps

  on_event-duplicate :
      (f : Faults) (event : UserLoggedInEvent) (now : ℕ) (redis : R.State) (devices : List Device)
      → f.setnx ≡ false
      → R.get event now redis ≡ some tt
      → on_event R f event now redis devices ≡ (redis, devices, returns)
  unfolding on_event setnx_until
  on_event-duplicate f event now redis devices reached h = ground arith

  on_event-recorded :
      (f : Faults) (event : UserLoggedInEvent) (now : ℕ) (redis : R.State) (devices : List Device)
      → R.get event now redis ≡ none
      → (on_event R f event now redis devices).2 ≡ returns
      → on_event R f event now redis devices ≡ (
        R.set event tt idempotency_ttl now redis,
        add_device event.device_id event.login_time devices,
        returns,
      )
  unfolding on_event setnx_until first_time
  on_event-recorded f event now redis devices free h = ground arith

  -- When a pod to which an event is new acknowledges it, it has recorded the login. If the event is delivered once
  -- more within 120 seconds and the delivery reaches Redis, it is acknowledged and leaves the devices as they are by
  -- then, also where a later login of the device is recorded by now, whatever other events were handled in
  -- between.
  pub recorded_once :
      (f again : Faults) (event : UserLoggedInEvent) (now later : ℕ) (redis redis_later : R.State)
      (devices devices_later : List Device)
      → R.get event now redis ≡ none
      → (on_event R f event now redis devices).2 ≡ returns
      → Others event (on_event R f event now redis devices).0 redis_later
      → later < now + idempotency_ttl
      → again.setnx ≡ false
      → ((on_event R f event now redis devices).1
          ≡ add_device event.device_id event.login_time devices)
        × (on_event R again event later redis_later devices_later
            ≡ (redis_later, devices_later, returns))
  recorded_once f again event now later redis redis_later devices devices_later free done between
        soon reached =
      let first = on_event-recorded f event now redis devices free done in
      (
        ap (λ r. r.1) first,
        on_event-duplicate again event later redis_later devices_later reached (
            Others-get later between
            ∙ ap (λ r. R.get event later r.0) first
            ∙ R.get-set event tt idempotency_ttl now later redis soon),
      )

  -- If the pod crashes between the key and the update, or the update fails and the key cannot be deleted, the
  -- next delivery within 120 seconds, if it reaches Redis, is acknowledged although the login was not
  -- recorded.
  pub crash_loses_login :
      (f g : Faults) (event : UserLoggedInEvent) (devices : List Device) (now later : ℕ)
      (redis : R.State)
      → R.get event now redis ≡ none
      → f.setnx ≡ false
      → f.lost ≡ false
      → (f.crash ≡ true) ⊎ ((f.add_device ≡ true) × (f.del ≡ true))
      → g.setnx ≡ false
      → later < now + idempotency_ttl
      → on_event R g event later
          (on_event R f event now redis devices).0
          (on_event R f event now redis devices).1
        ≡ ((on_event R f event now redis devices).0, devices, returns)
  unfolding on_event setnx_until first_time
  crash_loses_login f g event devices now later redis free reached unmade fails again soon =
      ground (arith, R.get-set event tt idempotency_ttl now later redis soon)
