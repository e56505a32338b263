-- ===== src/Nats/LoginEvents/Tests.antt =====
-- apps/oceanchat-user/src/modules/nats-events/nats-events.service.ts: one login event, delivered several times.
use ocean_chat_private.Prelude.{
  ℕ, ◌+◌, ◌<◌, ◌≡◌, ◌≢◌, inl, inr, refl, ap, ◌∙◌, Bool-cases, List, [], Option, none, some, Bool,
  true, false, ◌==◌, ◌&&◌, if◌then◌else◌, arith,
}
use ocean_chat_private.Store.{Store, setnx_until}
use ocean_chat_private.Store.Table.{entry_at}
use ocean_chat_private.Users.Accounts.{Device, add_device}
use ocean_chat_private.Nats.LoginEvents.{
  UserLoggedInEvent, Faults, Ending, returns, first_time, on_event,
}
use ocean_chat_private.Nats.LoginEvents.Deliveries.{here, next, recorded_once, crash_loses_login}

abbrev same_event : UserLoggedInEvent → UserLoggedInEvent → Bool
same_event a b =
    a.user_id == b.user_id && (a.device_id == b.device_id && a.login_time == b.login_time)

abbrev Keys : Type 0
Keys = UserLoggedInEvent → Option (Unit {0} × ℕ)

abbrev put : UserLoggedInEvent → Option (Unit {0} × ℕ) → Keys → Keys
put k e s l = if same_event l k then e else s l

same_event_refl : (a : UserLoggedInEvent) → same_event a a ≡ true
same_event_refl a = ground arith

same_event_sound : (a b : UserLoggedInEvent) → same_event a b ≡ true → a ≡ b
same_event_sound a b h = ground arith

put_same : (k : UserLoggedInEvent) (e : Option (Unit {0} × ℕ)) (s : Keys) → put k e s k ≡ e
put_same k e s = ground (arith, same_event_refl k)

put_other :
    (k l : UserLoggedInEvent) (e : Option (Unit {0} × ℕ)) (s : Keys) → l ≢ k → put k e s l ≡ s l
put_other k l e s d = elim (Bool-cases (same_event l k)) [
  | inl same ↦ absurd (d (same_event_sound l k same))
  | inr differs ↦ rw differs refl
]

alive :
    (v : Unit {0}) (later expiry : ℕ) → later < expiry → entry_at later (some (v, expiry)) ≡ some v
alive v later expiry l = ground arith

abbrev keys : Store UserLoggedInEvent (Unit {0})
keys = record {
  State = Keys;
  empty = λ k. none;
  get = λ k now s. entry_at now (s k);
  set = λ k v ttl now s. put k (some (v, now + ttl)) s;
  delete = λ k s. put k none s;
  get-empty = λ k now. refl;
  get-set = λ k v ttl now later s h.
      ap (entry_at later) (put_same k (some (v, now + ttl)) s) ∙ alive v later (now + ttl) h;
  get-set_other =
      λ k l v ttl now later s d. ap (entry_at later) (put_other k l (some (v, now + ttl)) s d);
  get-delete = λ k later s. ap (entry_at later) (put_same k none s);
  get-delete_other = λ k l later s d. ap (entry_at later) (put_other k l none s d);
}

abbrev event : UserLoggedInEvent
event = record { user_id = 1; device_id = 2; login_time = 3000 }

abbrev works : Faults
works = record { setnx = false; crash = false; add_device = false; lost = false; del = false }

-- The update is made, and its reply is lost.
abbrev reply_lost : Faults
reply_lost = record { setnx = false; crash = false; add_device = true; lost = true; del = false }

abbrev crashing : Faults
crashing = record { setnx = false; crash = true; add_device = false; lost = false; del = false }

-- The same device logs in again.
abbrev second_login : UserLoggedInEvent
second_login = record { user_id = 1; device_id = 2; login_time = 8000 }

later_login : event ≢ second_login
later_login e = absurd (omega (arith, ap (λ (u : UserLoggedInEvent). u.login_time) e))

abbrev after_first : Keys × List Device × Ending
after_first = on_event keys works event 4000 keys.empty []

abbrev after_second : Keys × List Device × Ending
after_second = on_event keys works second_login 9000 after_first.0 after_first.1

recorded_once_example :
    (after_first.1 ≡ add_device 2 3000 [])
    × (on_event keys works event 10000 after_second.0 after_second.1
        ≡ (after_second.0, after_second.1, returns))
unfolding on_event first_time setnx_until
recorded_once_example =
    recorded_once keys works works event 4000 10000 keys.empty after_second.0 [] after_second.1 refl
      refl (next works second_login 9000 after_first.1 later_login here) (omega arith) refl

-- The event is delivered again, and the login recorded a second time over the later one.
abbrev lost_first : Keys × List Device × Ending
lost_first = on_event keys reply_lost event 4000 keys.empty []

lost_reply_retried :
    (lost_first.1 ≡ add_device 2 3000 [])
    × ((on_event keys works event 10000 lost_first.0 (add_device 2 8000 lost_first.1)).1
        ≡ add_device 2 3000 [])
unfolding on_event first_time add_device
lost_reply_retried = (refl, refl)

crash_loses_login_run :
    on_event keys works event 30000
      (on_event keys crashing event 4000 keys.empty []).0
      (on_event keys crashing event 4000 keys.empty []).1
    ≡ ((on_event keys crashing event 4000 keys.empty []).0, [], returns)
crash_loses_login_run =
    crash_loses_login keys crashing works event [] 4000 30000 keys.empty refl refl refl (inl refl)
      refl (omega arith)
