-- ===== src/Nats/LoginEvents.antt =====
-- apps/oceanchat-user/src/modules/nats-events/nats-events.service.ts: a login event puts the device of the user in
-- its list, once. The idempotency key is made of the three fields of the event, so that the event stands for
-- it. Times are milliseconds.
pub mod Deliveries
mod Tests
use ocean_chat_private.Prelude.{
  ℕ, ◌*◌, List, [], ◌∷◌, Option, none, some, Bool, Result, ok, err, if◌then◌else◌,
}
use ocean_chat_private.Exceptions.{Exception, other}
use ocean_chat_private.Store.{Store, setnx_until}
use ocean_chat_private.Users.Accounts.{Device, add_device}

pub record UserLoggedInEvent : Type 0 where
  pub user_id : ℕ
  pub device_id : ℕ
  pub login_time : ℕ

abbrev pub idempotency_ttl : ℕ
idempotency_ttl = 120 * 1000

-- Which calls throw while an event is handled, and whether the pod crashes once the key is set. `lost` is whether
-- the database has made the update although its call throws or the pod crashes.
pub record Faults : Type 0 where
  pub setnx : Bool
  pub crash : Bool
  pub add_device : Bool
  pub lost : Bool
  pub del : Bool

-- How handling an event ends: it returns and the event is acknowledged, it throws, or the pod is gone.
pub data Ending : Type 0 where
  returns : Ending
  throws : Exception → Ending
  crashes : Ending

module _ (R : Store UserLoggedInEvent (Unit {0})) where
  -- What is left once the key is set: `try`, and `catch` with its del.
  unfoldable pub first_time :
      Faults → UserLoggedInEvent → R.State → List Device → R.State × List Device × Ending
  unfolding add_device
  first_time f event redis devices =
      let recorded = add_device event.device_id event.login_time devices in
      let kept = if f.lost then recorded else devices in
      if f.crash
      then (redis, kept, crashes)
      else if f.add_device
      then (if f.del
          then (redis, kept, throws other)
          else (R.delete event redis, kept, throws other))
      else (redis, recorded, returns)

  -- `onEvent`, on the devices of the user of the event.
  unfoldable pub on_event :
      Faults → UserLoggedInEvent → ℕ → R.State → List Device → R.State × List Device × Ending
  unfolding setnx_until first_time
  on_event f event now redis devices =
      if f.setnx
      then (redis, devices, throws other)
      else (let (locked, is_first) = setnx_until R event tt idempotency_ttl now redis in
          if is_first then first_time f event locked devices else (locked, devices, returns))
